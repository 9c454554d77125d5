-- ===== src/DeviceRecords.antt =====
-- frontend/src/types/index.ts: the device of the API, less the fields that no view here reads. `none` is
-- a null, or a field that the answer lacks, as it always lacks `snmp_community`; `??` takes both alike.
use datacenter_manager.Prelude.{String, Bool, Option}
use datacenter_manager.Prelude.Int.{ℤ}

pub record DeviceRead : Type 0 where
  pub id : String
  pub rack_id : Option String
  pub name : String
  pub device_type : String
  pub manufacturer : Option String
  pub model : Option String
  pub part_number : Option String
  pub serial_number : Option String
  pub asset_tag : Option String
  pub rack_unit_start : Option ℤ
  pub rack_unit_size : Option ℤ
  pub face : Option String
  pub power_rated_w : Option ℤ
  pub power_actual_w : Option ℤ
  pub weight_kg : Option String
  pub status : String
  pub management_ip : Option String
  pub management_protocol : Option String
  pub snmp_community : Option String
  pub snmp_version : Option String
  pub ssh_username : Option String
  pub purchase_date : Option String
  pub warranty_expiry : Option String
  pub end_of_support_date : Option String
  pub end_of_life_date : Option String
  pub notes : Option String

pub record DeviceServerRead : Type 0 where
  pub form_factor : Option String
  pub cpu_model : Option String
  pub cpu_socket_count : Option ℤ
  pub cpu_cores_per_socket : Option ℤ
  pub cpu_threads_per_core : Option ℤ
  pub ram_gb : Option ℤ
  pub ram_max_gb : Option ℤ
  pub nic_count : Option ℤ
  pub hba_count : Option ℤ
  pub bios_version : Option String
  pub bmc_firmware_version : Option String
  pub blade_chassis_id : Option String
  pub blade_slot : Option ℤ
  pub total_blade_slots : Option ℤ
  pub ethernet_switch_modules : Option ℤ
  pub fc_switch_modules : Option ℤ

pub record DeviceNetworkRead : Type 0 where
  pub os_type : Option String
  pub os_version : Option String
  pub port_count : Option ℤ
  pub uplink_port_count : Option ℤ
  pub management_vlan : Option ℤ
  pub spanning_tree_mode : Option String
  pub spanning_tree_priority : Option ℤ
  pub stacking_enabled : Option Bool
  pub stack_member_id : Option ℤ
  pub snmp_sysoid : Option String

pub record DevicePduRead : Type 0 where
  pub outlet_count : Option ℤ
  pub outlet_type : Option String
  pub input_voltage : Option ℤ
  pub input_current_max_a : Option String
  pub is_metered : Option Bool
  pub is_switched : Option Bool
  pub current_load_w : Option ℤ

pub record DeviceDetailRead : Type 0 where
  pub server_detail : Option DeviceServerRead
  pub network_detail : Option DeviceNetworkRead
  pub pdu_detail : Option DevicePduRead
