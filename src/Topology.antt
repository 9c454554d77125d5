-- ===== src/Topology.antt =====
-- frontend/src/types/topology.ts: the shapes of the topology API that the views read. Numbers that
-- the views subtract are integers, percentages and watts are natural numbers, and `null` is `none`.
use datacenter_manager.Prelude.{ℕ, String, Option, List}
use datacenter_manager.Prelude.Int.{ℤ}

pub data DeviceStatus : Type 0 where
  active inactive maintenance unknown : DeviceStatus

pub record RackElevationDevice : Type 0 where
  pub id : String
  pub name : String
  pub device_type : String
  pub status : DeviceStatus
  pub rack_unit_start : Option ℤ
  pub rack_unit_height : ℤ
  pub power_rated_w : Option ℕ
  pub power_actual_w : Option ℕ
  pub model : Option String
  pub vendor : Option String

pub record RackElevationResponse : Type 0 where
  pub id : String
  pub name : String
  pub total_units : ℤ
  pub devices : List RackElevationDevice

pub record FloorPlanRack : Type 0 where
  pub id : String
  pub name : String
  pub total_units : ℕ
  pub used_units : ℕ
  pub power_max_w : Option ℕ
  pub power_actual_w : Option ℕ
  pub power_utilization_pct : Option ℕ
  pub device_count : ℕ

pub record FloorPlanCorridor : Type 0 where
  pub id : String
  pub name : String
  pub position : Option ℕ
  pub racks : List FloorPlanRack

pub record FloorPlanRoom : Type 0 where
  pub id : String
  pub name : String
  pub notes : Option String
  pub corridors : List FloorPlanCorridor

pub record FloorPlanResponse : Type 0 where
  pub id : String
  pub name : String
  pub rooms : List FloorPlanRoom
