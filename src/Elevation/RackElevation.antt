-- ===== src/Elevation/RackElevation.antt =====
-- RackElevation.tsx: a copy of the rack's mouse handling, with its own sizes and queries.
use datacenter_manager.Prelude.{
  ℕ, String, ◌≡◌, refl, Bool, true, false, not, ◌&&◌, Option, none, some, List, [], ◌∷◌,
  if◌then◌else◌, arith,
}
use datacenter_manager.Prelude.Int.{ℤ, eqb_ℤ}
use datacenter_manager.Topology.{RackElevationDevice, RackElevationResponse}
use datacenter_manager.Elevation.{
  Widget, State, DragState, ResizeState, MouseEvent, Put, rack_unit_start, rack_unit_size, Effect,
  has_conflict, handle_mouse_move, handle_mouse_up, after_put, occupied_slots, rack_devices,
  commit_drag, commit_resize, released,
}

abbrev pub widget : Widget
widget = record {
  u_height = 24;
  keeps_pdus = false;
  invalidates = λ rack_id.
      ("topology" ∷ "rack-elevation" ∷ rack_id ∷ []) ∷ ("topology" ∷ "floor-plan" ∷ []) ∷ [];
}

-- `elevation?.devices ?? []`, without the PDUs where the view keeps them on the rails.
abbrev pub shown_devices : Option RackElevationResponse → List RackElevationDevice
shown_devices none = rack_devices widget []
shown_devices (some e) = rack_devices widget e.devices

abbrev pub total_u : ℤ → Option RackElevationResponse → ℤ
total_u fallback none = fallback
total_u fallback (some e) = e.total_units

-- `occupiedSlots`
pub occupied : Option RackElevationResponse → List ℤ
unfolding occupied_slots rack_devices
occupied elevation = occupied_slots (shown_devices elevation)

-- `handleMouseMove`
pub mouse_move : ℕ → ℤ → Option RackElevationResponse → MouseEvent → State → State
unfolding handle_mouse_move
mouse_move scale fallback elevation e s =
    handle_mouse_move widget scale (total_u fallback elevation) e s

-- `handleMouseUp` of this view puts both tests in one condition.
drag_write : List RackElevationDevice → DragState → Option Put
drag_write devices d =
    if not (eqb_ℤ d.current_unit d.original_unit)
      && not (has_conflict devices d.device_id d.current_unit d.device_height)
    then some (record { device_id = d.device_id; patch = rack_unit_start d.current_unit })
    else none

resize_write : List RackElevationDevice → ResizeState → Option Put
resize_write devices r =
    if not (eqb_ℤ r.current_height r.original_height)
      && not (has_conflict devices r.device_id r.unit_start r.current_height)
    then some (record { device_id = r.device_id; patch = rack_unit_size r.current_height })
    else none

mouse_released :
    List RackElevationDevice → State → Option DragState → Option ResizeState → State × Option Put
mouse_released devices s (some d) _ =
    (record s { drag = none; text_selectable = true }, drag_write devices d)
mouse_released devices s none (some r) =
    (record s { resize = none; text_selectable = true }, resize_write devices r)
mouse_released devices s none none = (record s { text_selectable = true }, none)

pub mouse_up : Option RackElevationResponse → State → State × Option Put
unfolding drag_write resize_write mouse_released rack_devices
mouse_up elevation s = mouse_released (shown_devices elevation) s s.drag s.resize

pub put_answered : String → Bool → List Effect
unfolding after_put
put_answered rack_id accepted = after_put widget rack_id accepted

released-eq :
    (devices : List RackElevationDevice) (s : State) (d : Option DragState) (r : Option ResizeState)
    → mouse_released devices s d r ≡ released devices s d r
unfolding mouse_released drag_write resize_write released commit_drag commit_resize
released-eq devices s (some d) r = ground arith
released-eq devices s none (some r) = ground arith
released-eq devices s none none = refl

-- The view's own form of the release agrees with that of the rack diagram, for every elevation and
-- state: the same state is left and the same request is sent.
pub mouse_up-eq-handle_mouse_up :
    (elevation : Option RackElevationResponse) (s : State)
    → mouse_up elevation s ≡ handle_mouse_up (shown_devices elevation) s
unfolding mouse_up handle_mouse_up
mouse_up-eq-handle_mouse_up elevation s = released-eq (shown_devices elevation) s s.drag s.resize
