-- ===== src/PdfExport/Tests.antt =====
-- Runs of the layout on a room with a corridor of ten racks.
use datacenter_manager.Prelude.{
  String, ◌≤◌, ◌+◌, [], ◌∷◌, none, some, inl, inr, subst, ltb, ◌≡◌, true, refl, set_key, lookup,
}
use datacenter_manager.Prelude.Int.{pos, ◌+ℤ◌, ◌-ℤ◌, ◌≤ℤ◌, int_laws}
use datacenter_manager.Topology.{
  FloorPlanRack, FloorPlanCorridor, FloorPlanResponse, RackElevationDevice, RackElevationResponse,
  active,
}
use datacenter_manager.PdfExport.{
  export_pdf, or_one, collect_racks, collect_elevations, render, estimate_height, draw_cover,
  draw_floor_plan, draw_sections, sections_bottom, draw_rack_section, draw_room, draw_corridors,
  draw_corridor, wraps,
}
use datacenter_manager.PdfExport.Height.{export_pdf-fits}
use datacenter_manager.PdfExport.Sections.{EndsInRack}

abbrev rack : FloorPlanRack
rack = record {
  id = "r";
  name = "r";
  total_units = 42;
  used_units = 3;
  power_max_w = none;
  power_actual_w = none;
  power_utilization_pct = none;
  device_count = 1;
}

abbrev ten : FloorPlanCorridor
ten = record {
  id = "c";
  name = "c";
  position = none;
  racks = rack ∷ rack ∷ rack ∷ rack ∷ rack ∷ rack ∷ rack ∷ rack ∷ rack ∷ rack ∷ [];
}

abbrev plan : FloorPlanResponse
plan = record {
  id = "d";
  name = "d";
  rooms = record { id = "o"; name = "o"; notes = none; corridors = ten ∷ [] } ∷ [];
}

abbrev top_device : RackElevationDevice
top_device = record {
  id = "t";
  name = "t";
  device_type = "server";
  status = active;
  rack_unit_start = some (pos 41);
  rack_unit_height = pos 2;
  power_rated_w = none;
  power_actual_w = none;
  model = none;
  vendor = none;
}

abbrev fetch : String → RackElevationResponse
fetch id = record { id = id; name = id; total_units = pos 42; devices = top_device ∷ [] }

fetch-EndsInRack : (id : String) → EndsInRack (fetch id)
unfolding EndsInRack ◌+ℤ◌
fetch-EndsInRack id d (inl e) =
    subst (λ x. or_one x.rack_unit_start +ℤ x.rack_unit_height ≤ℤ pos 43) e (omega int_laws)
fetch-EndsInRack id d (inr m) = absurd m

export_pdf-fits_example : (export_pdf plan fetch).bottom + 76 ≤ (export_pdf plan fetch).total_h
export_pdf-fits_example = export_pdf-fits plan fetch fetch-EndsInRack

-- A device far above the top slot of its rack is drawn below the canvas.
abbrev high : String → RackElevationResponse
high id = record (fetch id) {
  devices = record top_device { rack_unit_start = some (pos 500) } ∷ [];
}

drawn_below : ltb (export_pdf plan high).total_h (export_pdf plan high).bottom ≡ true
unfolding export_pdf collect_racks collect_elevations render estimate_height draw_cover
    draw_floor_plan draw_sections sections_bottom set_key lookup draw_rack_section draw_room
    draw_corridors draw_corridor wraps ◌+ℤ◌ ◌-ℤ◌
drawn_below = refl

-- The tenth tile.
