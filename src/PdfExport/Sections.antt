-- ===== src/PdfExport/Sections.antt =====
-- How far down the sections of the racks reach, against where each leaves the drawing.
use datacenter_manager.Prelude.{
  In, ℕ, ◌*◌, ◌≤◌, ◌≡◌, refl, some, List, [], ◌∷◌, inl, inr, arith, Bool-cases, lookup, set_key,
  lookup-set_key, ◌∙◌, String, str_eq, sym, subst, Option, none,
}
use datacenter_manager.Topology.{RackElevationDevice, RackElevationResponse}
use datacenter_manager.Prelude.Int.{ℤ, pos, pos_part, ◌+ℤ◌, ◌-ℤ◌, ◌≤ℤ◌, int_laws, parts_apart}
use datacenter_manager.PdfExport.{
  RackCtx, ElevationMap, draw_sections, collect_elevations, section_of, draw_rack_section, or_one,
  tile_bottom, deepest, section_bottom, bottom_of, sections_bottom,
}

-- The devices of an elevation end in the rack; one without a place is drawn from slot 1.
unfoldable pub EndsInRack : RackElevationResponse → Type 0
EndsInRack elevation =
    (d : RackElevationDevice)
    → In d elevation.devices
    → or_one d.rack_unit_start +ℤ d.rack_unit_height ≤ℤ elevation.total_units +ℤ pos 1

tile_fits :
    (total : ℤ) (d : RackElevationDevice)
    → or_one d.rack_unit_start +ℤ d.rack_unit_height ≤ℤ total +ℤ pos 1
    → tile_bottom d ≤ pos_part total * 22
tile_fits total d h =
    let e : or_one d.rack_unit_start -ℤ pos 1 +ℤ d.rack_unit_height ≤ℤ total = omega int_laws in
    let a = parts_apart (or_one d.rack_unit_start -ℤ pos 1 +ℤ d.rack_unit_height) in
    let b = parts_apart total in omega arith

deepest_fits :
    (total : ℤ) (ds : List RackElevationDevice)
    → ((d : RackElevationDevice)
        → In d ds
        → or_one d.rack_unit_start +ℤ d.rack_unit_height ≤ℤ total +ℤ pos 1)
    → deepest ds ≤ pos_part total * 22
deepest_fits total [] h = omega arith
deepest_fits total (d ∷ ds) h =
    let one = tile_fits total d (h d (inl refl)) in
    let others = deepest_fits total ds (λ x m. h x (inr m)) in omega arith

-- What is drawn of a section lies above the `y` that it leaves.
section_inside :
    (y : ℕ) (elevation : RackElevationResponse)
    → EndsInRack elevation
    → section_bottom elevation y ≤ draw_rack_section elevation y
unfolding section_bottom draw_rack_section EndsInRack
section_inside y elevation h =
    let d = deepest_fits elevation.total_units elevation.devices h in omega arith

section_grows : (y : ℕ) (o : Option RackElevationResponse) → y ≤ section_of y o
unfolding section_of draw_rack_section
section_grows y none = omega arith
section_grows y (some elevation) = omega arith

sections_grow : (m : ElevationMap) (y : ℕ) (rcs : List RackCtx) → y ≤ draw_sections m y rcs
unfolding draw_sections ElevationMap
sections_grow m y [] = omega arith
sections_grow m y (rc ∷ rcs) =
    let next = section_of y (lookup rc.rack.id m) in
    let one = section_grows y (lookup rc.rack.id m) in
    let others = sections_grow m next rcs in omega arith

bottom_inside :
    (y : ℕ) (o : Option RackElevationResponse)
    → ((elevation : RackElevationResponse) → o ≡ some elevation → EndsInRack elevation)
    → bottom_of y o ≤ section_of y o
unfolding bottom_of section_of
bottom_inside y none h = omega arith
bottom_inside y (some elevation) h = section_inside y elevation (h elevation refl)

-- Every elevation of a map ends in the rack.
pub AllEnd : ElevationMap → Type 0
unfolding ElevationMap
AllEnd m =
    (id : String) (elevation : RackElevationResponse)
    → lookup id m ≡ some elevation
    → EndsInRack elevation

pub sections_inside :
    (m : ElevationMap) (y : ℕ) (rcs : List RackCtx)
    → AllEnd m
    → sections_bottom m y rcs ≤ draw_sections m y rcs
unfolding sections_bottom draw_sections AllEnd ElevationMap
sections_inside m y [] h = omega arith
sections_inside m y (rc ∷ rcs) h =
    let next = section_of y (lookup rc.rack.id m) in
    let one = bottom_inside y (lookup rc.rack.id m) (h rc.rack.id) in
    let grown = sections_grow m next rcs in let others = sections_inside m next rcs h in omega arith

pub none-AllEnd : unfold ElevationMap in AllEnd []
unfolding AllEnd lookup
none-AllEnd id elevation e = absurd (cc)

pub collected-AllEnd :
    (fetch : String → RackElevationResponse)
    → ((id : String) → EndsInRack (fetch id))
    → (m : ElevationMap) (rcs : List RackCtx) → AllEnd m
    → AllEnd (collect_elevations fetch m rcs)
unfolding AllEnd collect_elevations ElevationMap
collected-AllEnd fetch ends m [] h = h
collected-AllEnd fetch ends m (rc ∷ rcs) h =
    collected-AllEnd fetch ends (set_key rc.rack.id (fetch rc.rack.id) m) rcs (λ id elevation e.
      elim (Bool-cases (str_eq rc.rack.id id)) [
        | inl same ↦
            let q = sym (lookup-set_key rc.rack.id id (fetch rc.rack.id) m) ∙ e in
            let found : fetch rc.rack.id ≡ elevation = cc (rw same at q) in
            subst EndsInRack found (ends rc.rack.id)
        | inr other ↦
            let q = sym (lookup-set_key rc.rack.id id (fetch rc.rack.id) m) ∙ e in
            h id elevation (rw other at q)
      ])
