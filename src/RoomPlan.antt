-- ===== src/RoomPlan.antt =====
-- frontend/src/components/topology/physical/RoomFloorPlan.tsx: where the rooms and the rack tiles of
-- the floor plan stand, in pixels; a tile's place is relative to its room. Colours, texts and the
-- drawing library's own layout of the canvas are left out.
pub mod Apart
mod Tests
use Prim.Native.Nat.{max, min}
use Prim.Native.String.{◌++◌ as str_append}
use datacenter_manager.Prelude.{
  ℕ, suc, ◌+◌, ◌-◌, ◌*◌, ◌/◌, ◌%◌, String, Bool, Option, none, some, List, [], ◌∷◌, ◌++◌, map,
  flat_map, length, leb, ◌==◌, if◌then◌else◌,
}
use datacenter_manager.Topology.{FloorPlanRack, FloorPlanCorridor, FloorPlanRoom}

abbrev pub rack_w : ℕ
rack_w = 130

abbrev pub rack_h : ℕ
rack_h = 90

abbrev pub rack_gap : ℕ
rack_gap = 12

abbrev pub racks_per_row : ℕ
racks_per_row = 4

abbrev pub room_padding : ℕ
room_padding = 16

abbrev pub room_header_h : ℕ
room_header_h = 44

abbrev pub room_gap : ℕ
room_gap = 32

abbrev pub corridor_header_h : ℕ
corridor_header_h = 30

abbrev pub corridor_gap : ℕ
corridor_gap = 10

pub record CorridorLayout : Type 0 where
  pub corridor : FloorPlanCorridor
  pub header_y : ℕ
  pub racks_start_y : ℕ

abbrev pub rows_of : FloorPlanCorridor → ℕ
rows_of c = max ((length c.racks + 3) / racks_per_row) 1

abbrev pub cols_of : FloorPlanCorridor → ℕ
cols_of c = min (max (length c.racks) 1) racks_per_row

-- Where the next corridor begins.
abbrev pub after_corridor : ℕ → FloorPlanCorridor → ℕ
after_corridor y c =
    y + (corridor_header_h + rows_of c * rack_h + (rows_of c - 1) * rack_gap + corridor_gap)

unfoldable pub layouts_from : ℕ → List FloorPlanCorridor → List CorridorLayout
layouts_from y [] = []
layouts_from y (c ∷ cs) =
    record { corridor = c; header_y = y; racks_start_y = y + corridor_header_h }
    ∷ layouts_from (after_corridor y c) cs

unfoldable pub end_of : ℕ → List FloorPlanCorridor → ℕ
end_of y [] = y
end_of y (c ∷ cs) = end_of (after_corridor y c) cs

unfoldable pub max_cols_from : ℕ → List FloorPlanCorridor → ℕ
max_cols_from acc [] = acc
max_cols_from acc (c ∷ cs) = max_cols_from (max acc (cols_of c)) cs

pub record RoomLayout : Type 0 where
  pub width : ℕ
  pub height : ℕ
  pub corridor_layouts : List CorridorLayout

abbrev pub first_y : ℕ
first_y = room_header_h + room_padding

unfoldable pub compute_room_layout : List FloorPlanCorridor → RoomLayout
compute_room_layout corridors =
    let max_cols = max_cols_from 1 corridors in
    record {
      width = room_padding * 2 + max_cols * rack_w + (max_cols - 1) * rack_gap;
      height = end_of first_y corridors + room_padding;
      corridor_layouts = layouts_from first_y corridors;
    }

-- A node of the canvas: a room's frame, or a tile in it.
pub record Tile : Type 0 where
  pub id : String
  pub x : ℕ
  pub y : ℕ

unfoldable pub tiles_from : ℕ → ℕ → List FloorPlanRack → List Tile
tiles_from start i [] = []
tiles_from start i (r ∷ rs) =
    record {
      id = str_append "rack-" r.id;
      x = room_padding + (i % racks_per_row) * (rack_w + rack_gap);
      y = start + (i / racks_per_row) * (rack_h + rack_gap);
    }
    ∷ tiles_from start (suc i) rs

abbrev pub corridor_tiles : CorridorLayout → List Tile
corridor_tiles l = tiles_from l.racks_start_y 0 l.corridor.racks

pub record RoomNode : Type 0 where
  pub id : String
  pub x : ℕ
  pub width : ℕ
  pub height : ℕ
  pub tiles : List Tile

unfoldable pub room_node : ℕ → FloorPlanRoom → RoomNode
room_node x_offset room =
    let layout = compute_room_layout room.corridors in
    record {
      id = str_append "room-" room.id;
      x = x_offset;
      width = layout.width;
      height = layout.height;
      tiles = flat_map corridor_tiles layout.corridor_layouts;
    }

-- `nodes`, from an offset on
unfoldable pub nodes_from : ℕ → List FloorPlanRoom → List RoomNode
nodes_from x_offset [] = []
nodes_from x_offset (room ∷ rooms) =
    let node = room_node x_offset room in
    node ∷ nodes_from (x_offset + (node.width + room_gap)) rooms

-- powerColor
unfoldable pub power_color : Option ℕ → String
power_color none = "#64748b"
power_color (some pct) =
    if leb 90 pct
    then "#ef4444"
    else (if leb 75 pct then "#f97316" else (if leb 50 pct then "#eab308" else "#22c55e"))
