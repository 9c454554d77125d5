-- ===== src/AddDevice.antt =====
-- frontend/src/components/topology/physical/AddDeviceModal.tsx: the dialog that adds a device to a
-- rack, with the slot that it suggests. What follows the answer to its request is left out.
pub mod FreeSlot
pub mod Submit
pub mod Placed
mod Tests
use datacenter_manager.Prelude.{
  ℕ, zero, suc, String, Bool, true, false, not, ◌&&◌, Option, none, some, List, if◌then◌else◌,
  str_eq,
}
use datacenter_manager.Prelude.Int.{ℤ, pos, pos_part, ◌+ℤ◌, ◌-ℤ◌}
use datacenter_manager.Topology.{RackElevationDevice}
use datacenter_manager.Elevation.{occupied_slots, has_slot}
use datacenter_manager.DeviceForm.{get_device_form_config}

-- The inner loop, from `h` on for the rounds that are left; `break` leaves `fits` false.
pub fits : List ℤ → ℤ → ℕ → ℤ → Bool
fits occupied u zero h = true
fits occupied u (suc n) h =
    let rest = fits occupied u n (h +ℤ pos 1) in if has_slot occupied (u +ℤ h) then false else rest

-- The outer loop, from `u` on for the rounds that are left; 1 is returned after the last.
pub first_fit : List ℤ → ℤ → ℕ → ℤ → ℤ
first_fit occupied height zero u = pos 1
first_fit occupied height (suc n) u =
    let rest = first_fit occupied height n (u +ℤ pos 1) in
    if fits occupied u (pos_part height) (pos 0) then u else rest

pub next_free_slot : List RackElevationDevice → ℤ → ℤ → ℤ
unfolding fits first_fit
next_free_slot devices total_units height =
    first_fit (occupied_slots devices) height (pos_part (total_units -ℤ height +ℤ pos 1)) (pos 1)

pub record Props : Type 0 where
  pub rack_id : String
  pub total_units : ℤ
  pub existing_devices : List RackElevationDevice
  pub initial_unit : Option ℤ

pub record State : Type 0 where
  pub name : String
  pub device_type : String
  pub height : ℤ
  pub unit_start : ℤ
  pub blade_chassis_id : String
  pub blade_slot : String

abbrev first_unit : Props → Option ℤ → ℤ
first_unit p none = next_free_slot p.existing_devices p.total_units (pos 1)
first_unit p (some u) = u

pub opened : Props → State
opened p = record {
  name = "";
  device_type = "server";
  height = pos 1;
  unit_start = first_unit p p.initial_unit;
  blade_chassis_id = "";
  blade_slot = "";
}

pub handle_type_change : String → State → State
handle_type_change type s = record s { device_type = type; blade_chassis_id = ""; blade_slot = "" }

pub handle_height_change : Props → ℤ → State → State
handle_height_change p h s = record s {
  height = h;
  unit_start = next_free_slot p.existing_devices p.total_units h;
}

-- The body of POST /devices; `undefined` is `none`.
pub record DeviceCreate : Type 0 where
  pub rack_id : Option String
  pub name : String
  pub device_type : String
  pub rack_unit_start : Option ℤ
  pub rack_unit_size : Option ℤ
  pub status : String

abbrev when : {A : Type 0} → Bool → A → Option A
when true a = some a
when false a = none

pub submit_body : Props → State → DeviceCreate
submit_body p s =
    let shown = (get_device_form_config s.device_type).show_rack_placement in
    let is_blade = str_eq s.device_type "blade" in
    let is_pdu = str_eq s.device_type "pdu" in
    record {
      rack_id = when (shown && not is_blade) p.rack_id;
      name = s.name;
      device_type = s.device_type;
      rack_unit_start = when (shown && not is_blade && not is_pdu) s.unit_start;
      rack_unit_size = when (shown && not is_blade && not is_pdu) s.height;
      status = "active";
    }
