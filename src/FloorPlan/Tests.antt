-- ===== src/FloorPlan/Tests.antt =====
-- A device of one rack, shown under another.
use datacenter_manager.Prelude.{String, ◌≡◌, ◌≢◌, refl, false, true, none, some, eq_iff}
use datacenter_manager.Prelude.Int.{pos}
use datacenter_manager.Topology.{FloorPlanRack, RackElevationDevice, active}
use datacenter_manager.Elevation.RackDiagram.{device_to_panel}
use datacenter_manager.FloorPlan.{
  State, initial, handle_rack_click, click_device, in_panel, fresh_panel,
}
use datacenter_manager.FloorPlan.Panel.{handle_rack_click-panel}

abbrev rack : String → FloorPlanRack
rack id = record {
  id = id;
  name = id;
  total_units = 42;
  used_units = 3;
  power_max_w = none;
  power_actual_w = none;
  power_utilization_pct = none;
  device_count = 1;
}

abbrev sw : RackElevationDevice
sw = record {
  id = "s";
  name = "s";
  device_type = "switch";
  status = active;
  rack_unit_start = some (pos 1);
  rack_unit_height = pos 1;
  power_rated_w = none;
  power_actual_w = none;
  model = none;
  vendor = none;
}

abbrev clicked : State
clicked = record (initial none) { selected_rack = some (rack "a"); panel = some fresh_panel }

a_b : ◌≢◌ {A = String} "a" "b"
a_b e = let b : false ≡ true = (eq_iff "a" "b").1 e in absurd (cc)

handle_rack_click-panel_example :
    let shown = in_panel (click_device sw) clicked in
    ((handle_rack_click (rack "a") shown).selected_rack ≡ none)
    × ((handle_rack_click (rack "a") shown).panel ≡ none)
    × ((handle_rack_click (rack "b") shown).selected_rack ≡ some (rack "b"))
    × ((handle_rack_click (rack "b") shown).panel
        ≡ some (record fresh_panel { selected_device = some (device_to_panel sw) }))
    × ((handle_rack_click (rack "b") (handle_rack_click (rack "a") shown)).panel ≡ some fresh_panel)
handle_rack_click-panel_example =
    handle_rack_click-panel clicked (rack "a") (rack "b") fresh_panel sw refl refl a_b
