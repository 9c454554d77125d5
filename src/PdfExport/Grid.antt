-- ===== src/PdfExport/Grid.antt =====
-- Where the rack tiles of a corridor stand, and how far down they are taken to reach.
use datacenter_manager.Prelude.{
  ℕ, zero, suc, ◌∙◌, ◌+◌, ◌-◌, ◌*◌, ◌/◌, ◌%◌, ◌≤◌, ◌<◌, ◌≡◌, refl, some, List, [], ◌∷◌, inl, inr,
  arith, true, false, Bool-cases, length, get_elem?, ltb,
}
use datacenter_manager.Topology.{FloorPlanRack, FloorPlanCorridor}
use datacenter_manager.PdfExport.{
  Rect, canvas_w, draw_tiles, corridor_tiles, margin, tile_w, tile_h, wraps,
}

wraps_within : (count idx k tx : ℕ) → tx ≡ 48 + 118 * k → k < 8 → wraps count idx (tx + 118) ≡ false
unfolding wraps
wraps_within count idx k tx at small = ground arith

wraps_last : (count idx k tx : ℕ) → idx + 1 ≡ count → wraps count idx (tx + 118) ≡ false
unfolding wraps
wraps_last count idx k tx last = ground arith

wraps_ninth : (count idx tx : ℕ) → tx ≡ 992 → idx + 1 < count → wraps count idx (tx + 118) ≡ true
unfolding wraps
wraps_ninth count idx tx at more = ground arith

-- Tile `i` of a corridor as it is drawn: in column `i % 9` of one row.
unfoldable pub rect_at : ℕ → ℕ → Rect
rect_at row_start i = record { x = 48 + 118 * (i % 9); y = row_start; w = 110; h = 72 }

module _ (row_start : ℕ) where
  same_rect : (a b : ℕ) → a % 9 ≡ b % 9 → some (rect_at row_start a) ≡ some (rect_at row_start b)
  unfolding rect_at
  same_rect a b e = λ j. some (record { x = 48 + 118 * e j; y = row_start; w = 110; h = 72 })

module _ (count row_start : ℕ) where
  -- At column `k` of nine, with `m + 1` racks left.
  draw_tiles-y :
      (k idx tx y r : ℕ) (rack : FloorPlanRack) (racks : List FloorPlanRack)
      → tx ≡ 48 + 118 * k
      → k ≤ 8
      → idx + length (rack ∷ racks) ≡ count
      → ((draw_tiles count row_start idx tx y r (rack ∷ racks)).y
          ≡ y + 80 * ((k + length racks) / 9))
        × ((draw_tiles count row_start idx tx y r (rack ∷ racks)).row_max_h ≡ 72)
  unfolding draw_tiles
  draw_tiles-y k idx tx y r rack [] at small e =
      rw (wraps_last count idx k tx (omega arith)) (omega arith, refl)
  draw_tiles-y k idx tx y r rack (next ∷ racks) at small e = elim (Bool-cases (ltb k 8)) [
    | inl within ↦
        let (ey, er) =
          draw_tiles-y (k + 1) (idx + 1) (tx + 118) y 72 next racks (omega arith) (ground arith)
            (omega arith) in
        rw (wraps_within count idx k tx at (ground arith)) (omega arith, er)
    | inr ninth ↦
        let (ey, er) =
          draw_tiles-y 0 (idx + 1) 48 (y + 80) 0 next racks refl (omega arith) (omega arith) in
        rw (wraps_ninth count idx tx (ground arith) (omega arith)) (ground arith, er)
  ]

  draw_tiles-rect :
      (k idx tx y r : ℕ) (racks : List FloorPlanRack)
      → tx ≡ 48 + 118 * k
      → k ≤ 8
      → idx + length racks ≡ count
      → (i : ℕ) → i < length racks
      → get_elem? (draw_tiles count row_start idx tx y r racks).rects i
        ≡ some (rect_at row_start (k + i))
  unfolding draw_tiles rect_at
  draw_tiles-rect k idx tx y r [] at small e i inside = absurd (omega arith)
  draw_tiles-rect k idx tx y r (rack ∷ racks) at small e zero inside =
      let p : tx ≡ 48 + 118 * ((k + 0) % 9) = omega arith in
      λ j. some (record { x = p j; y = row_start; w = tile_w; h = tile_h })
  draw_tiles-rect k idx tx y r (rack ∷ racks) at small e (suc i) inside =
      elim (Bool-cases (ltb k 8)) [
        | inl within ↦
            let ih =
              draw_tiles-rect (k + 1) (idx + 1) (tx + 118) y 72 racks (omega arith) (ground arith)
                (omega arith) i (omega arith) in
            rw (wraps_within count idx k tx at (ground arith))
              (ih ∙ same_rect row_start (k + 1 + i) (k + suc i) (omega arith))
        | inr ninth ↦
            let ih =
              draw_tiles-rect 0 (idx + 1) 48 (y + 80) 0 racks refl (omega arith) (omega arith) i
                (omega arith) in
            rw (wraps_ninth count idx tx (ground arith) (omega arith))
              (ih ∙ same_rect row_start (0 + i) (k + suc i) (ground arith))
      ]

pub grid_y :
    (y : ℕ) (racks : List FloorPlanRack)
    → 0 < length racks
    → ((draw_tiles (length racks) y 0 48 y 0 racks).y ≡ y + 80 * ((length racks - 1) / 9))
      × ((draw_tiles (length racks) y 0 48 y 0 racks).row_max_h ≡ 72)
grid_y y [] some_rack = absurd (omega arith)
grid_y y (rack ∷ racks) some_rack =
    let (ey, er) =
      draw_tiles-y (length (rack ∷ racks)) y 0 0 48 y 0 rack racks (omega arith) (omega arith)
        (omega arith) in
    (omega arith, er)

-- The tiles of a corridor all stand in the row below its label, nine columns 118 pixels apart,
-- each within the canvas's margins: tile i is in column i % 9, so that the tenth is drawn over
-- the first. The `y` that the loop leaves counts 80 pixels for each further row of nine.
pub corridor_tiles-lem :
    (y : ℕ) (corridor : FloorPlanCorridor) (i : ℕ)
    → i < length corridor.racks
    → (get_elem? (corridor_tiles y corridor).rects i ≡ some (rect_at (y + 14) i))
      × ((rect_at (y + 14) i).x + 110 ≤ canvas_w - margin)
      × ((corridor_tiles y corridor).y ≡ y + 14 + 80 * ((length corridor.racks - 1) / 9))
      × ((corridor_tiles y corridor).row_max_h ≡ 72)
unfolding corridor_tiles rect_at
corridor_tiles-lem y corridor i inside =
    let (ey, er) = grid_y (y + 14) corridor.racks (omega arith) in
    let rect =
      draw_tiles-rect (length corridor.racks) (y + 14) 0 0 48 (y + 14) 0 corridor.racks
        (omega arith) (omega arith) (omega arith) i inside in
    (rect ∙ same_rect (y + 14) (0 + i) i (omega arith), omega arith, ey, er)
