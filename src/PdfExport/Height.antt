-- ===== src/PdfExport/Height.antt =====
-- The height that the canvas is given (estimateHeight), against how far down it is drawn on.
use datacenter_manager.Prelude.{
  flat_map, In, ℕ, ap, suc, ◌+◌, ◌*◌, ◌/◌, ◌≤◌, ◌<◌, ◌≡◌, refl, some, List, [], ◌∷◌, ◌++◌, map, inl,
  inr, arith, Bool-cases, length, lookup, set_key, lookup-set_key, ◌==◌, ◌∙◌, String, str_eq,
  eq_iff,
}
use datacenter_manager.Topology.{
  FloorPlanRack, FloorPlanCorridor, FloorPlanRoom, FloorPlanResponse, RackElevationResponse,
}
use datacenter_manager.PdfExport.{
  RackCtx, export_pdf, content_w, ElevationMap, collect_racks, corridor_racks, draw_corridor,
  draw_corridors, draw_room, draw_floor_plan, estimate_corridors, estimate_rooms, corridor_tiles,
  all_empty, draw_sections, estimate_sections, draw_cover, estimate_height, render,
  collect_elevations, export_pdf, section_of, section_height, draw_rack_section,
}
use datacenter_manager.PdfExport.Grid.{grid_y}
use datacenter_manager.PdfExport.Sections.{
  EndsInRack, none-AllEnd, collected-AllEnd, sections_inside,
}

length-append : {A : Type 0} → (xs ys : List A) → length (xs ++ ys) ≡ length xs + length ys
length-append [] ys = omega arith
length-append (x ∷ xs) ys = let h = length-append xs ys in omega arith

length-map : {A B : Type 0} → (f : A → B) (xs : List A) → length (map f xs) ≡ length xs
length-map f [] = refl
length-map f (x ∷ xs) = ap suc (length-map f xs)

per_row : (content_w + 8) / 118 ≡ 9
per_row = refl

-- A corridor takes 4 pixels more than estimated, if it has racks.
corridor_height :
    (y : ℕ) (c : FloorPlanCorridor)
    → draw_corridor y c ≤ y + estimate_corridors (c ∷ []) + 4 * length c.racks
unfolding draw_corridor corridor_tiles estimate_corridors
corridor_height y c = elim (Bool-cases (length c.racks == 0)) [
  | inl e ↦ rw e (omega arith)
  | inr e ↦
      let some_rack : 0 < length c.racks = ground arith in
      let (ey, er) = grid_y (y + 14) c.racks some_rack in rw (e, ey, er, per_row) (omega arith)
]

-- All the racks of some corridors.
abbrev racks_of : List FloorPlanCorridor → List FloorPlanRack
racks_of = flat_map (λ c. c.racks)

corridors_height :
    (y : ℕ) (cs : List FloorPlanCorridor)
    → draw_corridors y cs ≤ y + estimate_corridors cs + 4 * length (racks_of cs)
unfolding draw_corridors estimate_corridors
corridors_height y [] = omega arith
corridors_height y (c ∷ cs) =
    let first = corridor_height y c in
    let others = corridors_height (draw_corridor y c) cs in
    let n = length-append c.racks (racks_of cs) in ground arith

all_empty-lem : (cs : List FloorPlanCorridor) → (length (racks_of cs) == 0) ≡ all_empty cs
all_empty-lem [] = refl
all_empty-lem (c ∷ cs) =
    let n = length-append c.racks (racks_of cs) in let h = all_empty-lem cs in ground arith

room_height :
    (y : ℕ) (room : FloorPlanRoom)
    → draw_room y room ≤ y + estimate_rooms (room ∷ []) + 4 * length (racks_of room.corridors)
unfolding draw_room estimate_rooms
room_height y room =
    let h = corridors_height (y + 18) room.corridors in
    let e = all_empty-lem room.corridors in ground arith

room_contexts :
    (room : FloorPlanRoom) (cs : List FloorPlanCorridor)
    → length (flat_map (corridor_racks room) cs) ≡ length (racks_of cs)
room_contexts room [] = refl
room_contexts room (c ∷ cs) =
    let mapped =
      length-map {A = FloorPlanRack} {B = RackCtx}
        (λ rack. record { rack = rack; room_name = room.name; corridor_name = c.name }) c.racks in
    let h = room_contexts room cs in
    let m = length-append (corridor_racks room c) (flat_map (corridor_racks room) cs) in
    let n = length-append c.racks (racks_of cs) in omega arith

rooms_height :
    (y : ℕ) (rooms : List FloorPlanRoom)
    → draw_floor_plan y rooms ≤ y + estimate_rooms rooms + 4 * length (collect_racks rooms)
unfolding draw_floor_plan estimate_rooms collect_racks
rooms_height y [] = omega arith
rooms_height y (room ∷ rooms) =
    let first = room_height y room in
    let others = rooms_height (draw_room y room) rooms in
    let e = room_contexts room room.corridors in
    let n = length-append (flat_map (corridor_racks room) room.corridors) (collect_racks rooms) in
    ground arith

-- A section with an elevation takes 6 pixels less than estimated.
section_fits :
    (y : ℕ) (elevation : RackElevationResponse)
    → draw_rack_section elevation y + 6 ≤ y + section_height (some elevation)
unfolding draw_rack_section section_height
section_fits y elevation = omega arith

Found : ElevationMap → String → Type 0
unfolding ElevationMap
Found m id = (elevation : RackElevationResponse) × (lookup id m ≡ some elevation)

module _ (fetch : String → RackElevationResponse) where
  keeps :
      (m : ElevationMap) (rcs : List RackCtx) (id : String)
      → Found m id
      → Found (collect_elevations fetch m rcs) id
  unfolding Found collect_elevations ElevationMap
  keeps m [] id found = found
  keeps m (rc ∷ rcs) id (elevation, e) =
      keeps (set_key rc.rack.id (fetch rc.rack.id) m) rcs id
        (elim (Bool-cases (str_eq rc.rack.id id)) [
          | inl same ↦
              (fetch rc.rack.id, lookup-set_key rc.rack.id id (fetch rc.rack.id) m ∙ rw same refl)
          | inr other ↦
              (elevation, lookup-set_key rc.rack.id id (fetch rc.rack.id) m ∙ rw (other, e) refl)
        ])

  collects :
      (m : ElevationMap) (rcs : List RackCtx) (rc : RackCtx)
      → In rc rcs
      → Found (collect_elevations fetch m rcs) rc.rack.id
  unfolding Found collect_elevations ElevationMap
  collects m [] rc inside = absurd inside
  collects m (first ∷ rcs) rc (inl here) =
      keeps (set_key first.rack.id (fetch first.rack.id) m) rcs rc.rack.id (
        fetch first.rack.id,
        lookup-set_key first.rack.id rc.rack.id (fetch first.rack.id) m
            ∙ rw ((eq_iff first.rack.id rc.rack.id).1 (λ i. (here i).rack.id)) refl,
      )
  collects m (first ∷ rcs) rc (inr later) =
      collects (set_key first.rack.id (fetch first.rack.id) m) rcs rc later

sections_height :
    (m : ElevationMap) (y : ℕ) (rcs : List RackCtx)
    → ((rc : RackCtx) → In rc rcs → Found m rc.rack.id)
    → draw_sections m y rcs + 6 * length rcs ≤ y + estimate_sections m rcs
unfolding draw_sections estimate_sections section_of section_height Found ElevationMap
sections_height m y [] found = omega arith
sections_height m y (rc ∷ rcs) found =
    let (elevation, e) = found rc (inl refl) in
    let h = section_fits y elevation in
    let others = sections_height m (draw_rack_section elevation y) rcs (λ x l. found x (inr l)) in
    rw e (omega arith)

-- Whatever floor plan the API answers, and whatever elevation it answers for each rack, if the devices
-- end in their rack the canvas is high enough: all that is drawn, the tiles of the devices included,
-- ends at least 76 pixels above its lower edge.
pub export_pdf-fits :
    (fp : FloorPlanResponse) (fetch : String → RackElevationResponse)
    → ((id : String) → EndsInRack (fetch id))
    → (export_pdf fp fetch).bottom + 76 ≤ (export_pdf fp fetch).total_h
unfolding export_pdf render estimate_height draw_cover
export_pdf-fits fp fetch ends =
    let rcs = collect_racks fp.rooms in
    let m = collect_elevations fetch [] rcs in
    let y = draw_floor_plan 228 fp.rooms + 24 in
    let plan = rooms_height 228 fp.rooms in
    let sections = sections_height m y rcs (collects fetch [] rcs) in
    let inside = sections_inside m y rcs (collected-AllEnd fetch ends [] rcs none-AllEnd) in
    omega arith
