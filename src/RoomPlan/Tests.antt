-- ===== src/RoomPlan/Tests.antt =====
-- A room with a corridor of six racks, in two rows.
use datacenter_manager.Prelude.{String, refl, none, List, [], ◌∷◌, inl, inr, In}
use datacenter_manager.Topology.{FloorPlanRack, FloorPlanRoom}
use datacenter_manager.RoomPlan.{
  Tile, room_node, nodes_from, compute_room_layout, layouts_from, tiles_from,
}
use datacenter_manager.RoomPlan.Apart.{Pairwise, Beside, Apart, Inside, nodes_from-Apart}

abbrev rack : String → FloorPlanRack
rack id = record {
  id = id;
  name = id;
  total_units = 42;
  used_units = 3;
  power_max_w = none;
  power_actual_w = none;
  power_utilization_pct = none;
  device_count = 1;
}

abbrev hall : FloorPlanRoom
hall = record {
  id = "h";
  name = "Hall";
  notes = none;
  corridors =
      record {
        id = "c";
        name = "C";
        position = none;
        racks = rack "1" ∷ rack "2" ∷ rack "3" ∷ rack "4" ∷ rack "5" ∷ rack "6" ∷ [];
      }
      ∷ [];
}

abbrev fifth : Tile
fifth = record { id = "rack-5"; x = 16; y = 192 }

abbrev two : List FloorPlanRoom
two = hall ∷ hall ∷ []

first_room : In (room_node 0 hall) (nodes_from 0 two)
unfolding nodes_from
first_room = inl refl

fifth_tile : In fifth (room_node 0 hall).tiles
unfolding room_node compute_room_layout layouts_from tiles_from
fifth_tile = inr (inr (inr (inr (inl refl))))

nodes_from-Apart_example :
    Pairwise Beside (nodes_from 0 two)
    × Pairwise Apart (room_node 0 hall).tiles
    × Inside fifth (room_node 0 hall)
nodes_from-Apart_example = nodes_from-Apart 0 two (room_node 0 hall) fifth first_room fifth_tile
