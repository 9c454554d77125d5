-- ===== src/Elevation/RackDiagram.antt =====
-- physical/RackDiagram.tsx: the rack level of the physical view. What a click on a tile does.
use datacenter_manager.Prelude.{String, false, Option, [], ◌∷◌, if◌then◌else◌, str_eq, ℕ}
use datacenter_manager.Prelude.Int.{ℤ}
use datacenter_manager.Topology.{RackElevationDevice, DeviceStatus}
use datacenter_manager.Elevation.{Widget, State, is_interacting}

abbrev pub widget : Widget
widget = record {
  u_height = 28;
  keeps_pdus = false;
  invalidates = λ rack_id. ("topology" ∷ "rack-elevation" ∷ rack_id ∷ []) ∷ ("devices" ∷ []) ∷ [];
}

-- What the detail panel is given of a device.
pub record DevicePanelInfo : Type 0 where
  pub id : String
  pub name : String
  pub device_type : String
  pub status : DeviceStatus
  pub rack_unit_start : Option ℤ
  pub rack_unit_height : ℤ
  pub power_rated_w : Option ℕ
  pub power_actual_w : Option ℕ
  pub model : Option String
  pub vendor : Option String

pub device_to_panel : RackElevationDevice → DevicePanelInfo
device_to_panel d = record {
  id = d.id;
  name = d.name;
  device_type = d.device_type;
  status = d.status;
  rack_unit_start = d.rack_unit_start;
  rack_unit_height = d.rack_unit_height;
  power_rated_w = d.power_rated_w;
  power_actual_w = d.power_actual_w;
  model = d.model;
  vendor = d.vendor;
}

-- The callback that a click on a tile makes.
pub data Click : Type 0 where
  ignored : Click
  on_chassis_click on_device_click : DevicePanelInfo → Click

pub tile_click : State → RackElevationDevice → Click
unfolding is_interacting device_to_panel
tile_click s d =
    if is_interacting s
    then ignored
    else if str_eq d.device_type "blade_chassis"
    then on_chassis_click (device_to_panel d)
    else on_device_click (device_to_panel d)
