-- ===== src/PhysicalView.antt =====
-- frontend/src/components/topology/physical/PhysicalView.tsx: the navigation of the physical view,
-- from the room to a rack to a blade chassis. The setters of a handler are one step. The components
-- that the view mounts are named by `MainView`, with the props that they are given.
pub mod Navigation
pub mod Ways
mod Tests
use datacenter_manager.Prelude.{
  String, Bool, true, false, Option, none, some, List, [], ◌∷◌, ◌++◌, not, ◌&&◌, if◌then◌else◌,
}
use datacenter_manager.Topology.{FloorPlanRack, FloorPlanRoom}
use datacenter_manager.Elevation.RackDiagram.{DevicePanelInfo}

pub data ZoomLevel : Type 0 where
  room_level rack_level chassis_level : ZoomLevel

pub data ViewMode : Type 0 where
  grid_mode rack_mode : ViewMode

pub record State : Type 0 where
  pub level : ZoomLevel
  pub view_mode : ViewMode
  pub selected_room : Option FloorPlanRoom
  pub selected_rack : Option FloorPlanRack
  pub selected_chassis : Option DevicePanelInfo
  pub detail_device : Option DevicePanelInfo
  pub panel_rack : Option FloorPlanRack
  pub show_add_room : Bool

abbrev pub initial : State
initial = record {
  level = room_level;
  view_mode = grid_mode;
  selected_room = none;
  selected_rack = none;
  selected_chassis = none;
  detail_device = none;
  panel_rack = none;
  show_add_room = false;
}

-- The effect that runs when the datacenter changes.
pub change_datacenter : State → State
change_datacenter s = record s {
  level = room_level;
  view_mode = grid_mode;
  selected_room = none;
  selected_rack = none;
  selected_chassis = none;
  detail_device = none;
  panel_rack = none;
}

pub drill_to_rack : FloorPlanRoom → FloorPlanRack → State → State
drill_to_rack room rack s = record s {
  level = rack_level;
  selected_room = some room;
  selected_rack = some rack;
  detail_device = none;
}

pub drill_to_chassis : DevicePanelInfo → State → State
drill_to_chassis chassis s = record s {
  level = chassis_level;
  selected_chassis = some chassis;
  detail_device = none;
  panel_rack = none;
}

up_from : ZoomLevel → State → State
up_from chassis_level s = record s { level = rack_level; selected_chassis = none }
up_from rack_level s = record s { level = room_level; selected_rack = none; selected_room = none }
up_from room_level s = s

pub drill_up : State → State
unfolding up_from
drill_up s = up_from s.level (record s { detail_device = none; panel_rack = none })

to_level : ZoomLevel → ZoomLevel → State → State
to_level room_level from s = record s {
  level = room_level;
  selected_room = none;
  selected_rack = none;
  selected_chassis = none;
}
to_level rack_level chassis_level s = record s { level = rack_level; selected_chassis = none }
to_level _ _ s = s

pub drill_to_level : ZoomLevel → State → State
unfolding to_level
drill_to_level target s =
    to_level target s.level (record s { detail_device = none; panel_rack = none })

abbrev pub is_room : ZoomLevel → Bool
is_room room_level = true
is_room _ = false

abbrev pub is_chassis : ZoomLevel → Bool
is_chassis chassis_level = true
is_chassis _ = false

pub record Crumb : Type 0 where
  pub label : String
  pub target_level : ZoomLevel
  pub clickable : Bool

abbrev pub crumb_of {ℓ} : {A : Type ℓ} → (A → Crumb) → Option A → List Crumb
crumb_of f none = []
crumb_of f (some a) = f a ∷ []

abbrev room_crumb : FloorPlanRoom → Crumb
room_crumb room = record { label = room.name; target_level = room_level; clickable = false }

abbrev rack_crumb : ZoomLevel → FloorPlanRack → Crumb
rack_crumb level rack = record {
  label = rack.name;
  target_level = rack_level;
  clickable = is_chassis level;
}

abbrev chassis_crumb : DevicePanelInfo → Crumb
chassis_crumb chassis = record {
  label = chassis.name;
  target_level = chassis_level;
  clickable = false;
}

-- `home` is `datacenterName || 'Floor Plan'`.
pub crumbs : String → State → List Crumb
crumbs home s =
    record { label = home; target_level = room_level; clickable = not (is_room s.level) }
    ∷ (crumb_of room_crumb s.selected_room
        ++ (crumb_of (rack_crumb s.level) s.selected_rack
            ++ crumb_of chassis_crumb s.selected_chassis))

-- The handlers that the bar passes to its buttons.
pub set_mode : ViewMode → State → State
set_mode mode s = record s { view_mode = mode; panel_rack = none }

pub open_add_room : State → State
open_add_room s = record s { show_add_room = true }

pub close_add_room : State → State
close_add_room s = record s { show_add_room = false }

-- The handlers that the view passes to the components it mounts.
pub room_device_click : DevicePanelInfo → State → State
room_device_click d s = record s { panel_rack = none; detail_device = some d }

pub rack_header_click : FloorPlanRack → State → State
rack_header_click rack s = record s { detail_device = none; panel_rack = some rack }

pub set_detail_device : DevicePanelInfo → State → State
set_detail_device d s = record s { detail_device = some d }

pub close_detail : State → State
close_detail s = record s { detail_device = none }

pub close_panel : State → State
close_panel s = record s { panel_rack = none }

-- What stands in the canvas area: nothing where no condition holds.
pub data MainView : Type 0 where
  room_floor_plan room_rack_view blank : MainView
  rack_diagram : FloorPlanRack → MainView
  chassis_diagram : DevicePanelInfo → MainView

abbrev view_at : ZoomLevel → ViewMode → Option FloorPlanRack → Option DevicePanelInfo → MainView
view_at room_level grid_mode rack chassis = room_floor_plan
view_at room_level rack_mode rack chassis = room_rack_view
view_at rack_level mode (some rack) chassis = rack_diagram rack
view_at chassis_level mode rack (some chassis) = chassis_diagram chassis
view_at _ _ _ _ = blank

pub main_view : State → MainView
main_view s = view_at s.level s.view_mode s.selected_rack s.selected_chassis

abbrev panel_at : ZoomLevel → ViewMode → Option FloorPlanRack → Option FloorPlanRack
panel_at room_level rack_mode panel = panel
panel_at _ _ _ = none

-- The rack of the side panel, if it is shown.
pub rack_panel : State → Option FloorPlanRack
rack_panel s = panel_at s.level s.view_mode s.panel_rack
