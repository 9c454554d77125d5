-- ===== src/Elevation/Tiles.antt =====
-- The tiles of the rack: which are drawn as in conflict. The marking of the device that is moved and
-- of those that it runs into come from two tests in the code.
use datacenter_manager.Prelude.{
  String, ◌≡◌, refl, ◌↔◌, sym, ◌∙◌, Bool, true, false, not, ◌&&◌, ◌||◌, Option, none, some, List,
  [], ◌∷◌, if◌then◌else◌, str_eq, eq_iff, any, any-eq-true, any_intro, find?, In, arith,
}
use datacenter_manager.Prelude.Int.{ℤ}
use datacenter_manager.Topology.{RackElevationDevice}
use datacenter_manager.Elevation.{State, DragState, ResizeState, overlaps, has_conflict}

abbrev pub is_dragging : State → RackElevationDevice → Bool
is_dragging s d = elim s.drag [ none ↦ false | some g ↦ str_eq g.device_id d.id ]

abbrev pub is_resizing : State → RackElevationDevice → Bool
is_resizing s d = elim s.resize [ none ↦ false | some r ↦ str_eq r.device_id d.id ]

-- `start` is the device's `rack_unit_start`: a device that is not placed has no tile.
pub display_unit : State → RackElevationDevice → ℤ → ℤ
display_unit s d start = elim s.drag [
  | none ↦ start
  | some g ↦ if is_dragging s d then g.current_unit else start
]

pub display_height : State → RackElevationDevice → ℤ
display_height s d = elim s.resize [
  | none ↦ d.rack_unit_height
  | some r ↦ if is_resizing s d then r.current_height else d.rack_unit_height
]

drag_conflict : List RackElevationDevice → RackElevationDevice → Option DragState → Bool
drag_conflict devices d none = false
drag_conflict devices d (some g) =
    str_eq g.device_id d.id && has_conflict devices d.id g.current_unit d.rack_unit_height

resize_conflict : List RackElevationDevice → RackElevationDevice → ℤ → Option ResizeState → Bool
resize_conflict devices d start none = false
resize_conflict devices d start (some r) =
    str_eq r.device_id d.id && has_conflict devices d.id start r.current_height

pub is_conflict : List RackElevationDevice → State → RackElevationDevice → ℤ → Bool
unfolding drag_conflict resize_conflict
is_conflict devices s d start =
    drag_conflict devices d s.drag || resize_conflict devices d start s.resize

resize_hits : RackElevationDevice → ℤ → ResizeState → Option RackElevationDevice → Bool
resize_hits d start r none = false
resize_hits d start r (some rd) = elim rd.rack_unit_start [
  | none ↦ false
  | some rd_start ↦ overlaps (some start) d.rack_unit_height rd_start r.current_height
]

hits :
    List RackElevationDevice
    → RackElevationDevice
    → ℤ
    → Option DragState
    → Option ResizeState
    → Bool
hits devices d start (some g) _ =
    overlaps (some start) d.rack_unit_height g.current_unit g.device_height
hits devices d start none (some r) =
    resize_hits d start r (find? (λ x. str_eq x.id r.device_id) devices)
hits devices d start none none = false

pub is_conflict_target : List RackElevationDevice → State → RackElevationDevice → ℤ → Bool
unfolding resize_hits hits
is_conflict_target devices s d start =
    not (is_dragging s d) && not (is_resizing s d) && hits devices d start s.drag s.resize

-- `hasConflict` as a test of each device.
has_conflict-any :
    (ds : List RackElevationDevice) (id : String) (u h : ℤ)
    → has_conflict ds id u h
      ≡ any (λ d. not (str_eq d.id id) && overlaps d.rack_unit_start d.rack_unit_height u h) ds
unfolding has_conflict
has_conflict-any [] id u h = refl
has_conflict-any (d ∷ ds) id u h = ground (arith, has_conflict-any ds id u h)

abbrev pub dragging : DragState → State → State
dragging g s = record s { drag = some g; resize = none }

module _ (ds : List RackElevationDevice) (g : DragState) (s : State) where
  -- The test that `hasConflict` makes of a device is the one that marks it as a target.
  target-of-test :
      (e : RackElevationDevice)
      → (not (str_eq e.id g.device_id)
          && overlaps e.rack_unit_start e.rack_unit_height g.current_unit g.device_height)
        ≡ true
      → (a : ℤ) × (e.rack_unit_start ≡ some a) × (is_conflict_target ds (dragging g s) e a ≡ true)
  unfolding is_conflict_target
  target-of-test e h = placed e.rack_unit_start refl (ground arith)
    where
      other : str_eq g.device_id e.id ≡ false
      other = ground (arith, eq_iff e.id g.device_id, eq_iff g.device_id e.id)

      placed :
          (o : Option ℤ)
          → e.rack_unit_start ≡ o
          → overlaps o e.rack_unit_height g.current_unit g.device_height ≡ true
          → (a : ℤ) × (e.rack_unit_start ≡ some a)
            × (is_conflict_target ds (dragging g s) e a ≡ true)
      placed none p q = absurd (cc)
      placed (some a) p q = (a, p, ground (arith, other, q))

  test-of-target :
      (e : RackElevationDevice) (a : ℤ)
      → e.rack_unit_start ≡ some a
      → is_conflict_target ds (dragging g s) e a ≡ true
      → (not (str_eq e.id g.device_id)
          && overlaps e.rack_unit_start e.rack_unit_height g.current_unit g.device_height)
        ≡ true
  unfolding is_conflict_target
  test-of-target e a p h = rw p (ground (arith, eq_iff e.id g.device_id, eq_iff g.device_id e.id))

  -- While a device of the list is dragged, and nothing is resized, its tile is drawn as in conflict
  -- exactly if the tile of some placed device is drawn as what it runs into.
  pub is_conflict-iff-target :
      (d : RackElevationDevice) (start : ℤ)
      → d.id ≡ g.device_id
      → d.rack_unit_height ≡ g.device_height
      → (is_conflict ds (dragging g s) d start ≡ true) ↔ (
          (e : RackElevationDevice) × (a : ℤ) × In e ds
          × (e.rack_unit_start ≡ some a)
          × (is_conflict_target ds (dragging g s) e a ≡ true))
  unfolding is_conflict
  is_conflict-iff-target d start same_id same_height = (
    λ h.
        let found : any test ds ≡ true =
          sym (has_conflict-any ds _ _ _) ∙ rw (← same_id, ← same_height) (conflict h) in
        let (e, m, q) = any-eq-true test ds found in
        let (a, p, r) = target-of-test e q in (e, a, m, p, r),
    λ (e, a, m, p, r).
        let found : any test ds ≡ true = any_intro test e ds m (test-of-target e a p r) in
        let same = (eq_iff g.device_id d.id).1 (sym same_id) in
        let hits_some : has_conflict ds d.id g.current_unit d.rack_unit_height ≡ true =
          rw (same_id, same_height) (has_conflict-any ds _ _ _ ∙ found) in
        ground (arith, same, hits_some),
  )
    where
      test : RackElevationDevice → Bool
      test x =
          not (str_eq x.id g.device_id)
          && overlaps x.rack_unit_start x.rack_unit_height g.current_unit g.device_height

      conflict :
          is_conflict ds (dragging g s) d start ≡ true
          → has_conflict ds d.id g.current_unit d.rack_unit_height ≡ true
      conflict h = ground arith
