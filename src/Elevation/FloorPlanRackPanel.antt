-- ===== src/Elevation/FloorPlanRackPanel.antt =====
-- FloorPlanRackPanel.tsx: a copy of the rack's mouse handling, with its own sizes and queries.
use datacenter_manager.Prelude.{ℕ, String, Bool, false, Option, none, some, List, [], ◌∷◌}
use datacenter_manager.Prelude.Int.{ℤ}
use datacenter_manager.Topology.{RackElevationDevice, RackElevationResponse}
use datacenter_manager.Elevation.{
  Widget, State, MouseEvent, Put, Effect, handle_mouse_move, handle_mouse_up, after_put,
  occupied_slots, rack_devices,
}

abbrev pub widget : Widget
widget = record {
  u_height = 22;
  keeps_pdus = false;
  invalidates = λ rack_id.
      ("topology" ∷ "rack-elevation" ∷ rack_id ∷ []) ∷ ("topology" ∷ "floor-plan" ∷ []) ∷ [];
}

-- `elevation?.devices ?? []`, without the PDUs where the view keeps them on the rails.
abbrev pub shown_devices : Option RackElevationResponse → List RackElevationDevice
shown_devices none = rack_devices widget []
shown_devices (some e) = rack_devices widget e.devices

abbrev pub total_u : ℤ → Option RackElevationResponse → ℤ
total_u fallback none = fallback
total_u fallback (some e) = e.total_units

-- `occupiedSlots`
pub occupied : Option RackElevationResponse → List ℤ
unfolding occupied_slots rack_devices
occupied elevation = occupied_slots (shown_devices elevation)

-- `handleMouseMove`
pub mouse_move : ℕ → ℤ → Option RackElevationResponse → MouseEvent → State → State
unfolding handle_mouse_move
mouse_move scale fallback elevation e s =
    handle_mouse_move widget scale (total_u fallback elevation) e s

-- `handleMouseUp`, and what follows the answer
pub mouse_up : Option RackElevationResponse → State → State × Option Put
unfolding handle_mouse_up rack_devices
mouse_up elevation s = handle_mouse_up (shown_devices elevation) s

pub put_answered : String → Bool → List Effect
unfolding after_put
put_answered rack_id accepted = after_put widget rack_id accepted
