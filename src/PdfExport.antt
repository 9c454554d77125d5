-- ===== src/PdfExport.antt =====
-- frontend/src/hooks/useExportTopologyPdf.tsx: the drawing of a datacenter on one canvas. What is
-- modelled is the layout: how far down each section reaches, where the rack tiles stand, and the
-- height that the canvas is given before anything is drawn. Colours, fonts and texts are left out.
-- The answers of the API are the parameter `fetch`.
pub mod Grid
pub mod Height
pub mod Sections
mod Tests
use Prim.Native.Nat.{max}
use datacenter_manager.Prelude.{
  ℕ, zero, suc, ◌+◌, ◌-◌, ◌*◌, ◌/◌, String, Bool, true, false, not, ◌&&◌, Option, none, some, List,
  [], ◌∷◌, ◌++◌, map, flat_map, if◌then◌else◌, ◌==◌, ltb, length, lookup, set_key,
}
use datacenter_manager.Prelude.Int.{ℤ, pos, pos_part, ◌+ℤ◌, ◌-ℤ◌}
use datacenter_manager.Topology.{
  FloorPlanRack, FloorPlanCorridor, FloorPlanRoom, FloorPlanResponse, RackElevationDevice,
  RackElevationResponse,
}

abbrev pub canvas_w : ℕ
canvas_w = 1240

abbrev pub margin : ℕ
margin = 48

abbrev pub content_w : ℕ
content_w = canvas_w - margin * 2

abbrev pub u_h : ℕ
u_h = 22

pub record RackCtx : Type 0 where
  pub rack : FloorPlanRack
  pub room_name : String
  pub corridor_name : String

abbrev pub corridor_racks : FloorPlanRoom → FloorPlanCorridor → List RackCtx
corridor_racks room corridor =
    map (λ rack. record { rack = rack; room_name = room.name; corridor_name = corridor.name })
      corridor.racks

pub collect_racks : List FloorPlanRoom → List RackCtx
collect_racks rooms = flat_map (λ room. flat_map (corridor_racks room) room.corridors) rooms

pub record Rect : Type 0 where
  pub x : ℕ
  pub y : ℕ
  pub w : ℕ
  pub h : ℕ

abbrev pub tile_w : ℕ
tile_w = 110

abbrev pub tile_h : ℕ
tile_h = 72

abbrev pub tile_gap : ℕ
tile_gap = 8

-- The tiles of a corridor, the `y` that the loop leaves, and its `rowMaxH`.
pub record Tiles : Type 0 where
  pub rects : List Rect
  pub y : ℕ
  pub row_max_h : ℕ

-- Whether the loop starts a new row before the tile that would stand at `next_x`.
unfoldable pub wraps : ℕ → ℕ → ℕ → Bool
wraps count idx next_x = ltb (canvas_w - margin) (next_x + tile_w) && ltb (idx + 1) count

-- The loop over the racks of a corridor, `count` in all, from index `idx` on.
pub draw_tiles : ℕ → ℕ → ℕ → ℕ → ℕ → ℕ → List FloorPlanRack → Tiles
draw_tiles count row_start idx tx y row_max_h [] = record {
  rects = [];
  y = y;
  row_max_h = row_max_h;
}
draw_tiles count row_start idx tx y row_max_h (rack ∷ racks) =
    let next_x = tx + (tile_w + tile_gap) in
    let new_row = wraps count idx next_x in
    let rest =
      draw_tiles count row_start (idx + 1) (if new_row then margin else next_x)
        (if new_row then y + (tile_h + tile_gap) else y) (if new_row then 0 else tile_h) racks in
    record {
      rects = record { x = tx; y = row_start; w = tile_w; h = tile_h } ∷ rest.rects;
      y = rest.y;
      row_max_h = rest.row_max_h;
    }

-- The tiles of a corridor whose label stands at `y`.
pub corridor_tiles : ℕ → FloorPlanCorridor → Tiles
unfolding draw_tiles
corridor_tiles y corridor =
    draw_tiles (length corridor.racks) (y + 14) 0 margin (y + 14) 0 corridor.racks

pub draw_corridor : ℕ → FloorPlanCorridor → ℕ
unfolding corridor_tiles
draw_corridor y corridor =
    if length corridor.racks == 0
    then y
    else (corridor_tiles y corridor).y + ((corridor_tiles y corridor).row_max_h + 12)

pub draw_corridors : ℕ → List FloorPlanCorridor → ℕ
draw_corridors y [] = y
draw_corridors y (c ∷ cs) = draw_corridors (draw_corridor y c) cs

pub draw_room : ℕ → FloorPlanRoom → ℕ
draw_room y room =
    if length (flat_map (λ c. c.racks) room.corridors) == 0
    then y
    else draw_corridors (y + 18) room.corridors + 8

pub draw_floor_plan : ℕ → List FloorPlanRoom → ℕ
draw_floor_plan y [] = y
draw_floor_plan y (room ∷ rooms) = draw_floor_plan (draw_room y room) rooms

pub draw_cover : ℕ → ℕ
draw_cover y = y + 44 + 24 + (56 + 20) + 20 + 16

abbrev pub row_h : ℕ
row_h = 20

-- A negative number of units never exceeds the table's height, so its part below 0 is left out.
abbrev pub elev_h : RackElevationResponse → ℕ
elev_h elevation = pos_part elevation.total_units * u_h

pub draw_rack_section : RackElevationResponse → ℕ → ℕ
draw_rack_section elevation y =
    let section_top = y + 6 + 10 in
    let table_bottom = section_top + row_h * (length elevation.devices + 1) in
    max (section_top + elev_h elevation) table_bottom + 28

abbrev pub or_one : Option ℤ → ℤ
or_one none = pos 1
or_one (some n) = n

-- How far below the top of the section the tile of a device reaches; 0 for one that ends above it. The
-- server has no upper bound for the place of a device, so that a tile may reach below the diagram.
abbrev pub tile_bottom : RackElevationDevice → ℕ
tile_bottom d = pos_part (or_one d.rack_unit_start -ℤ pos 1 +ℤ d.rack_unit_height) * u_h

abbrev pub deepest : List RackElevationDevice → ℕ
deepest [] = 0
deepest (d ∷ ds) = max (tile_bottom d) (deepest ds)

-- How far down the diagram, the tiles of the devices and the table of a section reach.
pub section_bottom : RackElevationResponse → ℕ → ℕ
section_bottom elevation y =
    let section_top = y + 6 + 10 in
    let table_bottom = section_top + row_h * (length elevation.devices + 1) in
    max (section_top + max (elev_h elevation) (deepest elevation.devices)) table_bottom

pub ElevationMap : Type 0
ElevationMap = List (String × RackElevationResponse)

section_of : ℕ → Option RackElevationResponse → ℕ
section_of y none = y
section_of y (some elevation) = draw_rack_section elevation y

pub draw_sections : ElevationMap → ℕ → List RackCtx → ℕ
unfolding ElevationMap section_of
draw_sections elevations y [] = y
draw_sections elevations y (rc ∷ rcs) =
    draw_sections elevations (section_of y (lookup rc.rack.id elevations)) rcs

pub bottom_of : ℕ → Option RackElevationResponse → ℕ
unfolding section_bottom
bottom_of y none = y
bottom_of y (some elevation) = section_bottom elevation y

-- How far down the sections reach, each drawn where the one before left `y`.
pub sections_bottom : ElevationMap → ℕ → List RackCtx → ℕ
unfolding ElevationMap section_of bottom_of
sections_bottom elevations y [] = y
sections_bottom elevations y (rc ∷ rcs) =
    let rest = sections_bottom elevations (section_of y (lookup rc.rack.id elevations)) rcs in
    max (bottom_of y (lookup rc.rack.id elevations)) rest

-- Math.ceil(a / b)
abbrev pub ceil_div : ℕ → ℕ → ℕ
ceil_div a b = (a + b - 1) / b

abbrev pub all_empty : List FloorPlanCorridor → Bool
all_empty [] = true
all_empty (c ∷ cs) = (length c.racks == 0) && all_empty cs

pub estimate_corridors : List FloorPlanCorridor → ℕ
estimate_corridors [] = 0
estimate_corridors (c ∷ cs) =
    let rest = estimate_corridors cs in
    if length c.racks == 0
    then rest
    else 14 + ceil_div (length c.racks) ((content_w + 8) / 118) * 80 + rest

pub estimate_rooms : List FloorPlanRoom → ℕ
unfolding estimate_corridors
estimate_rooms [] = 0
estimate_rooms (room ∷ rooms) =
    let rest = estimate_rooms rooms in
    if all_empty room.corridors then rest else 22 + estimate_corridors room.corridors + 8 + rest

section_height : Option RackElevationResponse → ℕ
section_height none = 0
section_height (some elevation) = max (elev_h elevation) ((length elevation.devices + 1) * 20) + 50

pub estimate_sections : ElevationMap → List RackCtx → ℕ
unfolding ElevationMap section_height
estimate_sections elevations [] = 0
estimate_sections elevations (rc ∷ rcs) =
    section_height (lookup rc.rack.id elevations) + estimate_sections elevations rcs

pub estimate_height : FloorPlanResponse → List RackCtx → ElevationMap → ℕ
unfolding estimate_rooms estimate_sections
estimate_height fp rack_contexts elevations =
    260 + estimate_rooms fp.rooms + 20 + estimate_sections elevations rack_contexts + margin

-- The height of the canvas, and how far down it is drawn on: the `y` after the last section, or the
-- lowest edge of a section's diagram, tiles and table, if that is lower.
pub record Rendered : Type 0 where
  pub total_h : ℕ
  pub bottom : ℕ

pub render : FloorPlanResponse → List RackCtx → ElevationMap → Rendered
unfolding estimate_height draw_cover draw_floor_plan draw_sections sections_bottom
render fp rack_contexts elevations = record {
  total_h = estimate_height fp rack_contexts elevations;
  bottom =
      let y = draw_floor_plan (draw_cover margin) fp.rooms + 24 in
      max (draw_sections elevations y rack_contexts) (sections_bottom elevations y rack_contexts);
}

-- `elevationMap` of the hook, with the answer to each request.
pub collect_elevations :
    (String → RackElevationResponse) → ElevationMap → List RackCtx → ElevationMap
unfolding ElevationMap set_key
collect_elevations fetch m [] = m
collect_elevations fetch m (rc ∷ rcs) =
    collect_elevations fetch (set_key rc.rack.id (fetch rc.rack.id) m) rcs

pub export_pdf : FloorPlanResponse → (String → RackElevationResponse) → Rendered
unfolding collect_racks collect_elevations render ElevationMap
export_pdf fp fetch =
    render fp (collect_racks fp.rooms) (collect_elevations fetch [] (collect_racks fp.rooms))
