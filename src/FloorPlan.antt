-- ===== src/FloorPlan.antt =====
-- frontend/src/components/topology/DatacenterFloorPlan.tsx and the panel that it mounts for the rack
-- that is selected, FloorPlanRackPanel.tsx: which rack and which device are shown. The panel has no
-- `key`, so React keeps its state while a rack stays selected, whichever it is. Dragging in the panel
-- is in Elevation.
pub mod Panel
mod Tests
use datacenter_manager.Prelude.{
  ℕ, String, Bool, true, false, Option, none, some, str_eq, leb, if◌then◌else◌,
}
use datacenter_manager.Prelude.Int.{ℤ}
use datacenter_manager.Topology.{
  FloorPlanRack, FloorPlanRoom, FloorPlanCorridor, RackElevationDevice,
}
use datacenter_manager.Elevation.RackDiagram.{DevicePanelInfo, device_to_panel}

pub data ViewMode : Type 0 where
  tiles elevation : ViewMode

-- The state of FloorPlanRackPanel, less that of the mouse.
pub record PanelState : Type 0 where
  pub selected_device : Option DevicePanelInfo
  pub show_add_device : Bool
  pub add_device_at_unit : Option ℤ

abbrev pub fresh_panel : PanelState
fresh_panel = record { selected_device = none; show_add_device = false; add_device_at_unit = none }

-- `panel` is the state of the panel while it is mounted.
pub record State : Type 0 where
  pub selected_dc_id : String
  pub view_mode : ViewMode
  pub selected_rack : Option FloorPlanRack
  pub panel : Option PanelState
  pub show_add_room : Bool
  pub add_corridor_target : Option FloorPlanRoom
  pub add_rack_target : Option FloorPlanCorridor

abbrev pub or_empty : Option String → String
or_empty none = ""
or_empty (some s) = s

abbrev pub initial : Option String → State
initial prop_dc_id = record {
  selected_dc_id = or_empty prop_dc_id;
  view_mode = tiles;
  selected_rack = none;
  panel = none;
  show_add_room = false;
  add_corridor_target = none;
  add_rack_target = none;
}

-- `{selectedRack && <FloorPlanRackPanel />}`: unmounted, mounted afresh, or kept
abbrev pub rendered_panel : Option FloorPlanRack → Option PanelState → Option PanelState
rendered_panel none p = none
rendered_panel (some r) none = some fresh_panel
rendered_panel (some r) (some p) = some p

unfoldable pub set_selected_rack : Option FloorPlanRack → State → State
set_selected_rack r s = record s { selected_rack = r; panel = rendered_panel r s.panel }

abbrev pub is_selected : Option FloorPlanRack → FloorPlanRack → Bool
is_selected none rack = false
is_selected (some prev) rack = str_eq prev.id rack.id

unfoldable pub handle_rack_click : FloorPlanRack → State → State
handle_rack_click rack s =
    set_selected_rack (if is_selected s.selected_rack rack then none else some rack) s

-- The selector that is there without a datacenter from outside.
unfoldable pub change_datacenter : String → State → State
change_datacenter id s = set_selected_rack none (record s { selected_dc_id = id })

unfoldable pub show_elevation : State → State
show_elevation s = set_selected_rack none (record s { view_mode = elevation })

unfoldable pub show_tiles : State → State
show_tiles s = record s { view_mode = tiles }

unfoldable pub close_panel : State → State
close_panel s = set_selected_rack none s

-- The dialogs that add a room, a corridor and a rack.
abbrev pub set_show_add_room : Bool → State → State
set_show_add_room b s = record s { show_add_room = b }

abbrev pub set_add_corridor_target : Option FloorPlanRoom → State → State
set_add_corridor_target r s = record s { add_corridor_target = r }

abbrev pub set_add_rack_target : Option FloorPlanCorridor → State → State
set_add_rack_target c s = record s { add_rack_target = c }

-- What a handler of the panel does to its state.
abbrev pub in_panel : (PanelState → PanelState) → State → State
in_panel f s = record s { panel = changed s.panel }
  where
    changed : Option PanelState → Option PanelState
    changed none = none
    changed (some p) = some (f p)

-- A click on a tile while nothing is dragged or resized.
unfoldable pub click_device : RackElevationDevice → PanelState → PanelState
click_device d p = record p { selected_device = some (device_to_panel d) }

unfoldable pub click_back : PanelState → PanelState
click_back p = record p { selected_device = none }

unfoldable pub open_add_device_at : ℤ → PanelState → PanelState
open_add_device_at u p = record p { add_device_at_unit = some u; show_add_device = true }

unfoldable pub open_add_device : PanelState → PanelState
open_add_device p = record p { add_device_at_unit = none; show_add_device = true }

unfoldable pub close_add_device : PanelState → PanelState
close_add_device p = record p { show_add_device = false; add_device_at_unit = none }

-- utilizationBg, by its background
unfoldable pub utilization_bg : Option ℕ → String
utilization_bg none = "slate"
utilization_bg (some pct) =
    if leb 90 pct
    then "red"
    else (if leb 75 pct then "orange" else (if leb 50 pct then "amber" else "emerald"))
