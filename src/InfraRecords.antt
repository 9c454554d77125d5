-- ===== src/InfraRecords.antt =====
-- frontend/src/types/index.ts: the rows of the API that the tree view shows, less the fields that no
-- page reads. Counts are natural numbers, decimals are the text that the API sends, and `null` is
-- `none`.
use datacenter_manager.Prelude.{ℕ, String, Bool, Option}
use datacenter_manager.Prelude.Int.{ℤ}

pub record DataCenterRead : Type 0 where
  pub id : String
  pub name : String
  pub address : Option String
  pub city : Option String
  pub country : Option String
  pub total_power_kw : Option String
  pub total_cooling_kw : Option String
  pub pue : Option String
  pub notes : Option String

pub record RoomRead : Type 0 where
  pub id : String
  pub datacenter_id : String
  pub name : String
  pub floor : Option ℤ
  pub cooling_type : Option String
  pub raised_floor : Bool
  pub width_m : Option String
  pub depth_m : Option String
  pub height_m : Option String
  pub max_power_kw : Option String
  pub notes : Option String

pub record RackRead : Type 0 where
  pub id : String
  pub corridor_id : String
  pub name : String
  pub row : Option String
  pub column : Option String
  pub total_u : ℤ
  pub max_power_w : Option ℤ
  pub max_weight_kg : Option String
  pub airflow_direction : Option String
  pub power_feed_count : ℤ
  pub manufacturer : Option String
  pub model : Option String
  pub serial_number : Option String
  pub status : String
  pub notes : Option String

pub record NetworkInterfaceRead : Type 0 where
  pub id : String
  pub device_id : String
  pub name : String
  pub media_type : String
  pub speed_mbps : Option ℕ
  pub mac_address : Option String
  pub wwn : Option String
  pub is_management : Bool
  pub is_uplink : Bool
  pub duplex : Option String
  pub mtu : Option ℤ
  pub status : String

pub record VirtHostRead : Type 0 where
  pub id : String
  pub device_id : Option String
  pub cluster_id : String

pub record VmRead : Type 0 where
  pub id : String
  pub host_id : String
  pub name : String
  pub status : String
  pub os_type : Option String
  pub os_version : Option String
  pub vcpu_count : Option ℤ
  pub ram_gb : Option ℤ
  pub storage_gb : Option ℤ
  pub tools_version : Option String
  pub is_template : Bool
  pub snapshot_count : Option ℤ
  pub last_seen_at : Option String
