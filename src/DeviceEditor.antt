-- ===== src/DeviceEditor.antt =====
-- frontend/src/pages/Devices.tsx: the dialog that creates and edits a device. Its state, and how it
-- is opened. The list, its filters and the markup are left out. The texts of the form are strings, as
-- in the page; `weight_kg` and `input_current_max_a` are texts in the API's answers too.
pub mod Body
pub mod Ip
pub mod Save
pub mod Checks
pub mod Retry
pub mod Entries
pub mod Stored
pub mod RoundTrip
pub mod ChassisBlades
mod Tests
use datacenter_manager.Prelude.{
  String, Bool, true, false, Option, none, some, List, [], ◌∷◌, if◌then◌else◌,
}
use datacenter_manager.Prelude.Int.{ℤ}
use datacenter_manager.Prelude.Numerals.{show_int}
use datacenter_manager.DeviceRecords.{
  DeviceRead, DeviceServerRead, DeviceNetworkRead, DevicePduRead, DeviceDetailRead,
}

pub record FormData : Type 0 where
  pub rack_id : String
  pub name : String
  pub device_type : String
  pub manufacturer : String
  pub model : String
  pub part_number : String
  pub serial_number : String
  pub asset_tag : String
  pub rack_unit_start : String
  pub rack_unit_size : String
  pub face : String
  pub power_rated_w : String
  pub weight_kg : String
  pub status : String
  pub management_ip : String
  pub management_protocol : String
  pub snmp_community : String
  pub snmp_version : String
  pub ssh_username : String
  pub ssh_password : String
  pub purchase_date : String
  pub warranty_expiry : String
  pub end_of_support_date : String
  pub end_of_life_date : String
  pub notes : String

pub record ServerExtForm : Type 0 where
  pub form_factor : String
  pub cpu_model : String
  pub cpu_socket_count : String
  pub cpu_cores_per_socket : String
  pub cpu_threads_per_core : String
  pub ram_gb : String
  pub ram_max_gb : String
  pub nic_count : String
  pub hba_count : String
  pub bios_version : String
  pub bmc_firmware_version : String
  pub blade_chassis_id : String
  pub blade_slot : String
  pub total_blade_slots : String
  pub ethernet_switch_modules : String
  pub fc_switch_modules : String

pub record NetworkExtForm : Type 0 where
  pub os_type : String
  pub os_version : String
  pub port_count : String
  pub uplink_port_count : String
  pub management_vlan : String
  pub spanning_tree_mode : String
  pub spanning_tree_priority : String
  pub stacking_enabled : Bool
  pub stack_member_id : String
  pub snmp_sysoid : String

pub record PduExtForm : Type 0 where
  pub outlet_count : String
  pub outlet_type : String
  pub input_voltage : String
  pub input_current_max_a : String
  pub is_metered : Bool
  pub is_switched : Bool
  pub current_load_w : String

pub record State : Type 0 where
  pub modal_open : Bool
  pub editing : Option DeviceRead
  pub form : FormData
  pub server_ext : ServerExtForm
  pub network_ext : NetworkExtForm
  pub pdu_ext : PduExtForm
  pub error : String
  pub field_errors : List (String × String)

-- x ?? ""
abbrev pub text_of : Option String → String
text_of none = ""
text_of (some s) = s

-- x != null ? String(x) : ""
abbrev pub int_text : Option ℤ → String
int_text none = ""
int_text (some n) = show_int n

-- x ?? d
abbrev pub or_else {ℓ} : {A : Type ℓ} → A → Option A → A
or_else d none = d
or_else d (some a) = a

pub empty_form : String → FormData
empty_form rack_id = record {
  rack_id = rack_id;
  name = "";
  device_type = "server";
  manufacturer = "";
  model = "";
  part_number = "";
  serial_number = "";
  asset_tag = "";
  rack_unit_start = "";
  rack_unit_size = "1";
  face = "front";
  power_rated_w = "";
  weight_kg = "";
  status = "active";
  management_ip = "";
  management_protocol = "";
  snmp_community = "";
  snmp_version = "";
  ssh_username = "";
  ssh_password = "";
  purchase_date = "";
  warranty_expiry = "";
  end_of_support_date = "";
  end_of_life_date = "";
  notes = "";
}

pub empty_server_ext : ServerExtForm
empty_server_ext = record {
  form_factor = "";
  cpu_model = "";
  cpu_socket_count = "";
  cpu_cores_per_socket = "";
  cpu_threads_per_core = "";
  ram_gb = "";
  ram_max_gb = "";
  nic_count = "";
  hba_count = "";
  bios_version = "";
  bmc_firmware_version = "";
  blade_chassis_id = "";
  blade_slot = "";
  total_blade_slots = "";
  ethernet_switch_modules = "";
  fc_switch_modules = "";
}

pub empty_network_ext : NetworkExtForm
empty_network_ext = record {
  os_type = "";
  os_version = "";
  port_count = "";
  uplink_port_count = "";
  management_vlan = "";
  spanning_tree_mode = "";
  spanning_tree_priority = "";
  stacking_enabled = false;
  stack_member_id = "";
  snmp_sysoid = "";
}

pub empty_pdu_ext : PduExtForm
empty_pdu_ext = record {
  outlet_count = "";
  outlet_type = "";
  input_voltage = "";
  input_current_max_a = "";
  is_metered = false;
  is_switched = false;
  current_load_w = "";
}

abbrev size_text : Option ℤ → String
size_text none = "1"
size_text (some n) = int_text (some n)

-- The form of the device that is edited.

pub form_of : DeviceRead → FormData
form_of d = record {
  rack_id = text_of d.rack_id;
  name = d.name;
  device_type = d.device_type;
  manufacturer = text_of d.manufacturer;
  model = text_of d.model;
  part_number = text_of d.part_number;
  serial_number = text_of d.serial_number;
  asset_tag = text_of d.asset_tag;
  rack_unit_start = int_text d.rack_unit_start;
  rack_unit_size = size_text d.rack_unit_size;
  face = or_else "front" d.face;
  power_rated_w = int_text d.power_rated_w;
  weight_kg = text_of d.weight_kg;
  status = d.status;
  management_ip = text_of d.management_ip;
  management_protocol = text_of d.management_protocol;
  snmp_community = text_of d.snmp_community;
  snmp_version = text_of d.snmp_version;
  ssh_username = text_of d.ssh_username;
  ssh_password = "";
  purchase_date = text_of d.purchase_date;
  warranty_expiry = text_of d.warranty_expiry;
  end_of_support_date = text_of d.end_of_support_date;
  end_of_life_date = text_of d.end_of_life_date;
  notes = text_of d.notes;
}

pub open_create : Option String → State → State
unfolding empty_form empty_server_ext empty_network_ext empty_pdu_ext
open_create rack_filter s = record s {
  editing = none;
  form = empty_form (text_of rack_filter);
  server_ext = empty_server_ext;
  network_ext = empty_network_ext;
  pdu_ext = empty_pdu_ext;
  error = "";
  field_errors = [];
  modal_open = true;
}

pub open_edit : DeviceRead → State → State
unfolding form_of empty_server_ext empty_network_ext empty_pdu_ext
open_edit d s = record s {
  editing = some d;
  form = form_of d;
  server_ext = empty_server_ext;
  network_ext = empty_network_ext;
  pdu_ext = empty_pdu_ext;
  error = "";
  field_errors = [];
  modal_open = true;
}

pub handle_device_type_change : String → State → State
unfolding empty_server_ext empty_network_ext empty_pdu_ext
handle_device_type_change new_type s = record s {
  form = record s.form { device_type = new_type };
  server_ext = empty_server_ext;
  network_ext = empty_network_ext;
  pdu_ext = empty_pdu_ext;
  field_errors = [];
}

server_form : Option DeviceServerRead → ServerExtForm → ServerExtForm
server_form none f = f
server_form (some r) f = record {
  form_factor = text_of r.form_factor;
  cpu_model = text_of r.cpu_model;
  cpu_socket_count = int_text r.cpu_socket_count;
  cpu_cores_per_socket = int_text r.cpu_cores_per_socket;
  cpu_threads_per_core = int_text r.cpu_threads_per_core;
  ram_gb = int_text r.ram_gb;
  ram_max_gb = int_text r.ram_max_gb;
  nic_count = int_text r.nic_count;
  hba_count = int_text r.hba_count;
  bios_version = text_of r.bios_version;
  bmc_firmware_version = text_of r.bmc_firmware_version;
  blade_chassis_id = text_of r.blade_chassis_id;
  blade_slot = int_text r.blade_slot;
  total_blade_slots = int_text r.total_blade_slots;
  ethernet_switch_modules = int_text r.ethernet_switch_modules;
  fc_switch_modules = int_text r.fc_switch_modules;
}

network_form : Option DeviceNetworkRead → NetworkExtForm → NetworkExtForm
network_form none f = f
network_form (some r) f = record {
  os_type = text_of r.os_type;
  os_version = text_of r.os_version;
  port_count = int_text r.port_count;
  uplink_port_count = int_text r.uplink_port_count;
  management_vlan = int_text r.management_vlan;
  spanning_tree_mode = text_of r.spanning_tree_mode;
  spanning_tree_priority = int_text r.spanning_tree_priority;
  stacking_enabled = or_else false r.stacking_enabled;
  stack_member_id = int_text r.stack_member_id;
  snmp_sysoid = text_of r.snmp_sysoid;
}

pdu_form : Option DevicePduRead → PduExtForm → PduExtForm
pdu_form none f = f
pdu_form (some r) f = record {
  outlet_count = int_text r.outlet_count;
  outlet_type = text_of r.outlet_type;
  input_voltage = int_text r.input_voltage;
  input_current_max_a = text_of r.input_current_max_a;
  is_metered = or_else false r.is_metered;
  is_switched = or_else false r.is_switched;
  current_load_w = int_text r.current_load_w;
}

-- The effect that runs when the detail of the edited device has loaded, or the dialog opens.
pub detail_loaded : Option DeviceDetailRead → State → State
unfolding server_form network_form pdu_form
detail_loaded none s = s
detail_loaded (some detail) s =
    if s.modal_open
    then record s {
      server_ext = server_form detail.server_detail s.server_ext;
      network_ext = network_form detail.network_detail s.network_ext;
      pdu_ext = pdu_form detail.pdu_detail s.pdu_ext;
    }
    else s
