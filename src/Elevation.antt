-- ===== src/Elevation.antt =====
-- The rack elevation that four views draw and edit by mouse: RackDiagram, RoomRackView,
-- RackElevation and FloorPlanRackPanel, under frontend/src/components/topology. The definitions here
-- follow physical/RackDiagram.tsx; what differs between the views is the record `Widget`, and
-- each view has its value in a child module. A mouse position is a whole number of 1/scale pixels.
pub mod Membership
pub mod Conflict
pub mod Mouse
pub mod Layout
pub mod Preview
pub mod Edits
pub mod Tiles
pub mod RackDiagram
pub mod RoomRackView
pub mod RackElevation
pub mod FloorPlanRackPanel
mod Tests
use datacenter_manager.Prelude.{
  ℕ, zero, suc, ◌*◌, String, Bool, true, false, not, ◌&&◌, ◌||◌, Option, none, some, List, [], ◌∷◌,
  ◌++◌, if◌then◌else◌, str_eq, filter, map, ◌%◌, ◌==◌, ◌+◌,
}
use datacenter_manager.Prelude.Int.{
  ℤ, pos, pos_part, ◌+ℤ◌, ◌-ℤ◌, leb_ℤ, eqb_ℤ, max_ℤ, min_ℤ, round_div,
}
use datacenter_manager.Topology.{RackElevationDevice, RackElevationResponse, DeviceStatus}

-- What the four views differ in: the height of a unit in pixels, whether PDUs stay among the devices
-- that occupy slots, and the queries that a successful write invalidates.
pub record Widget : Type 0 where
  pub u_height : ℕ
  pub keeps_pdus : Bool
  pub invalidates : String → List (List String)

pub record DragState : Type 0 where
  pub device_id : String
  pub original_unit : ℤ
  pub current_unit : ℤ
  pub device_height : ℤ

pub record ResizeState : Type 0 where
  pub device_id : String
  pub unit_start : ℤ
  pub original_height : ℤ
  pub current_height : ℤ
  pub start_mouse_y : ℤ

-- The component's state, with `document.body.style.userSelect` as a flag.
pub record State : Type 0 where
  pub drag : Option DragState
  pub resize : Option ResizeState
  pub show_add_device : Bool
  pub add_device_at : Option ℤ
  pub text_selectable : Bool

abbrev pub initial : State
initial = record {
  drag = none;
  resize = none;
  show_add_device = false;
  add_device_at = none;
  text_selectable = true;
}

pub data Patch : Type 0 where
  rack_unit_start : ℤ → Patch
  rack_unit_size : ℤ → Patch

-- PUT /devices/{device_id}
pub record Put : Type 0 where
  pub device_id : String
  pub patch : Patch

pub data Effect : Type 0 where
  invalidate : List String → Effect
  refetch : Effect

-- A mouse event, with the top of the rack's rectangle where the rack is mounted.
pub record MouseEvent : Type 0 where
  pub client_y : ℤ
  pub rack_top : Option ℤ

-- The test of one device: `false` for one that is not placed, which the loop skips.
abbrev pub overlaps : Option ℤ → ℤ → ℤ → ℤ → Bool
overlaps none d_height new_start height = false
overlaps (some start) d_height new_start height =
    let new_end = new_start +ℤ height -ℤ pos 1 in
    let d_end = start +ℤ d_height -ℤ pos 1 in leb_ℤ new_start d_end && leb_ℤ start new_end

pub has_conflict : List RackElevationDevice → String → ℤ → ℤ → Bool
has_conflict [] moving_id new_start height = false
has_conflict (d ∷ ds) moving_id new_start height =
    let rest = has_conflict ds moving_id new_start height in
    if str_eq d.id moving_id
    then rest
    else if overlaps d.rack_unit_start d.rack_unit_height new_start height
    then true
    else rest

abbrev pub is_pdu : RackElevationDevice → Bool
is_pdu d = str_eq d.device_type "pdu"

pub rack_devices : Widget → List RackElevationDevice → List RackElevationDevice
rack_devices w devices = if w.keeps_pdus then devices else filter (λ d. not (is_pdu d)) devices

pub pdu_devices : List RackElevationDevice → List RackElevationDevice
pdu_devices = filter is_pdu

-- `ds.filter((_, i) => i % 2 === r)`, from index `i` on
pub every_other : ℕ → ℕ → List RackElevationDevice → List RackElevationDevice
every_other r i [] = []
every_other r i (d ∷ ds) =
    let rest = every_other r (i + 1) ds in if (i % 2) == r then d ∷ rest else rest

pub left_pdus : List RackElevationDevice → List RackElevationDevice
unfolding every_other pdu_devices
left_pdus devices = every_other 0 0 (pdu_devices devices)

pub right_pdus : List RackElevationDevice → List RackElevationDevice
unfolding every_other pdu_devices
right_pdus devices = every_other 1 0 (pdu_devices devices)

-- for (u = start; u < start + n; u++) s.add(u). A negative `n` makes no round, as `pos_part` says.
pub slots_from : ℤ → ℕ → List ℤ
slots_from u zero = []
slots_from u (suc n) = u ∷ slots_from (u +ℤ pos 1) n

abbrev pub slots_at : Option ℤ → ℤ → List ℤ
slots_at none height = []
slots_at (some start) height = slots_from start (pos_part height)

pub device_slots : RackElevationDevice → List ℤ
unfolding slots_from
device_slots d = slots_at d.rack_unit_start d.rack_unit_height

unfoldable pub occupied_slots : List RackElevationDevice → List ℤ
unfolding device_slots
occupied_slots [] = []
occupied_slots (d ∷ ds) = device_slots d ++ occupied_slots ds

abbrev pub has_slot : List ℤ → ℤ → Bool
has_slot [] u = false
has_slot (v ∷ vs) u = eqb_ℤ v u || has_slot vs u

pub is_interacting : State → Bool
is_interacting s = elim s.drag [
  | some d ↦ true
  | none ↦ elim s.resize [ some r ↦ true | none ↦ false ]
]

-- The drag of `handleMouseMove`.
pub drag_to : Widget → ℕ → ℤ → ℤ → ℤ → DragState → DragState
drag_to w scale total client_y top d = record d {
  current_unit = max_ℤ (pos 1) (
      min_ℤ (round_div (client_y -ℤ top) (w.u_height * scale) +ℤ pos 1)
        (total -ℤ d.device_height +ℤ pos 1));
}

-- The resize of `handleMouseMove`.
pub resize_to : Widget → ℕ → ℤ → ℤ → ResizeState → ResizeState
resize_to w scale total client_y r = record r {
  current_height = max_ℤ (pos 1) (
      min_ℤ (r.original_height +ℤ round_div (client_y -ℤ r.start_mouse_y) (w.u_height * scale))
        (total -ℤ r.unit_start +ℤ pos 1));
}

resized : Widget → ℕ → ℤ → MouseEvent → State → Option ResizeState → State
resized w scale total e s none = s
resized w scale total e s (some r) = record s {
  resize = some (resize_to w scale total e.client_y r);
}

dragged : Widget → ℕ → ℤ → MouseEvent → State → Option DragState → Option ℤ → State
dragged w scale total e s (some d) (some top) = record s {
  drag = some (drag_to w scale total e.client_y top d);
}
dragged w scale total e s _ _ = resized w scale total e s s.resize

pub handle_mouse_move : Widget → ℕ → ℤ → MouseEvent → State → State
unfolding drag_to resize_to resized dragged
handle_mouse_move w scale total e s = dragged w scale total e s s.drag e.rack_top

pub commit_drag : List RackElevationDevice → DragState → Option Put
commit_drag devices d =
    if eqb_ℤ d.current_unit d.original_unit
    then none
    else if has_conflict devices d.device_id d.current_unit d.device_height
    then none
    else some (record { device_id = d.device_id; patch = rack_unit_start d.current_unit })

pub commit_resize : List RackElevationDevice → ResizeState → Option Put
commit_resize devices r =
    if eqb_ℤ r.current_height r.original_height
    then none
    else if has_conflict devices r.device_id r.unit_start r.current_height
    then none
    else some (record { device_id = r.device_id; patch = rack_unit_size r.current_height })

released :
    List RackElevationDevice → State → Option DragState → Option ResizeState → State × Option Put
released devices s (some d) _ =
    (record s { drag = none; text_selectable = true }, commit_drag devices d)
released devices s none (some r) =
    (record s { resize = none; text_selectable = true }, commit_resize devices r)
released devices s none none = (record s { text_selectable = true }, none)

-- The new state, and the request that is sent, if any. `devices` are those that occupy slots.
pub handle_mouse_up : List RackElevationDevice → State → State × Option Put
unfolding commit_drag commit_resize released
handle_mouse_up devices s = released devices s s.drag s.resize

invalidate_all : List (List String) → List Effect
invalidate_all [] = []
invalidate_all (k ∷ ks) = invalidate k ∷ invalidate_all ks

-- What follows the answer to the request: `true` if it was accepted, `false` if it threw.
unfoldable pub after_put : Widget → String → Bool → List Effect
unfolding invalidate_all
after_put w rack_id accepted =
    if accepted then invalidate_all (w.invalidates rack_id) else refetch ∷ []

drag_from : RackElevationDevice → State → Option ℤ → State
drag_from device s none = s
drag_from device s (some start) = record s {
  drag = some (record {
    device_id = device.id;
    original_unit = start;
    current_unit = start;
    device_height = device.rack_unit_height;
  });
  text_selectable = false;
}

pub start_drag : RackElevationDevice → State → State
unfolding drag_from
start_drag device s = drag_from device s device.rack_unit_start

resize_from : ℤ → RackElevationDevice → State → Option ℤ → State
resize_from client_y device s none = s
resize_from client_y device s (some start) = record s {
  resize = some (record {
    device_id = device.id;
    unit_start = start;
    original_height = device.rack_unit_height;
    current_height = device.rack_unit_height;
    start_mouse_y = client_y;
  });
  text_selectable = false;
}

pub start_resize : ℤ → RackElevationDevice → State → State
unfolding resize_from
start_resize client_y device s = resize_from client_y device s device.rack_unit_start

pub open_add_device_at : ℤ → State → State
open_add_device_at u s = record s { add_device_at = some u; show_add_device = true }

-- The toolbar's button.
pub add_device : State → State
add_device s = record s { add_device_at = none; show_add_device = true }

pub close_add_device : State → State
close_add_device s = record s { show_add_device = false; add_device_at = none }

-- A click on the row of slot `u`: only a free slot outside an interaction reacts.
pub slot_click : List RackElevationDevice → ℤ → State → State
unfolding occupied_slots is_interacting open_add_device_at
slot_click devices u s =
    if not (has_slot (occupied_slots devices) u) && not (is_interacting s)
    then open_add_device_at u s
    else s

-- The loop of `reduce`.
add_units : ℤ → List RackElevationDevice → ℤ
add_units s [] = s
add_units s (d ∷ ds) = add_units (s +ℤ d.rack_unit_height) ds

pub used_units : List RackElevationDevice → ℤ
unfolding add_units
used_units devices = add_units (pos 0) devices

-- What a request asks of the list of devices: the device with the id, and no other, is changed.
patched : Patch → RackElevationDevice → RackElevationDevice
patched (rack_unit_start u) d = record d { rack_unit_start = some u }
patched (rack_unit_size h) d = record d { rack_unit_height = h }

pub apply_patch : Put → RackElevationDevice → RackElevationDevice
unfolding patched
apply_patch p d = if str_eq d.id p.device_id then patched p.patch d else d

abbrev pub apply_put : Put → List RackElevationDevice → List RackElevationDevice
apply_put p devices = map (apply_patch p) devices
