-- ===== src/PhysicalView/Tests.antt =====
-- Runs of the navigation.
use datacenter_manager.Prelude.{◌≡◌, ◌↔◌, refl, true, none, some, In, inl}
use datacenter_manager.Prelude.Int.{pos}
use datacenter_manager.Topology.{active}
use datacenter_manager.Elevation.RackDiagram.{DevicePanelInfo}
use datacenter_manager.PhysicalView.{
  State, initial, rack_mode, chassis_level, room_level, set_mode, drill_to_chassis, drill_up,
  main_view, blank, crumbs, Crumb,
}
use datacenter_manager.PhysicalView.Navigation.{
  Reach, begin, next, toggles, opens_chassis_in_room, IsPlaced, Reach-IsPlaced,
}
use datacenter_manager.PhysicalView.Ways.{drill_up-blank_iff}

abbrev chassis : DevicePanelInfo
chassis = record {
  id = "c";
  name = "c";
  device_type = "blade_chassis";
  status = active;
  rack_unit_start = some (pos 1);
  rack_unit_height = pos 10;
  power_rated_w = none;
  power_actual_w = none;
  model = none;
  vendor = none;
}

-- A chassis that is opened from the room's rack view.
abbrev opened : State
opened = drill_to_chassis chassis (set_mode rack_mode initial)

opened-Reach : Reach "DC" opened
unfolding set_mode main_view
opened-Reach = next (next begin (toggles rack_mode refl)) (opens_chassis_in_room chassis refl)

Reach-IsPlaced_example : IsPlaced opened
Reach-IsPlaced_example = Reach-IsPlaced opened-Reach

opened_level : opened.level ≡ chassis_level
unfolding drill_to_chassis
opened_level = refl

drill_up-blank_iff_example : (main_view (drill_up opened) ≡ blank) ↔ (opened.view_mode ≡ rack_mode)
drill_up-blank_iff_example = drill_up-blank_iff opened-Reach opened_level

abbrev home : Crumb
home = record { label = "DC"; target_level = room_level; clickable = true }

home_shown : In home (crumbs "DC" opened)
unfolding crumbs drill_to_chassis
home_shown = inl refl
