-- ===== src/RoomPlan/Apart.antt =====
-- The tiles of a room stand apart and inside it, and so do the rooms beside one another.
use Prim.Native.Nat.{max}
use datacenter_manager.Prelude.{
  ℕ, suc, ◌+◌, ◌-◌, ◌*◌, ◌/◌, ◌%◌, ◌≤◌, ◌<◌, ◌≡◌, refl, sym, ap, subst, ◌⊎◌, inl, inr, List, [],
  ◌∷◌, ◌++◌, flat_map, length, In, In-append, arith,
}
use datacenter_manager.Topology.{FloorPlanRack, FloorPlanCorridor, FloorPlanRoom}
use datacenter_manager.RoomPlan.{
  cols_of, after_corridor, layouts_from, end_of, max_cols_from, compute_room_layout, Tile,
  tiles_from, corridor_tiles, RoomNode, room_node, nodes_from, first_y,
}

-- Neither of two tiles covers a point of the other.
abbrev pub Apart : Tile → Tile → Type 0
Apart t u = (t.x + 130 ≤ u.x) ⊎ (u.x + 130 ≤ t.x) ⊎ (t.y + 90 ≤ u.y) ⊎ (u.y + 90 ≤ t.y)

abbrev pub Pairwise : {A : Type 0} → (A → A → Type 0) → List A → Type 0
Pairwise R [] = Unit
Pairwise {A} R (x ∷ xs) = ((y : A) → In y xs → R x y) × Pairwise R xs

Pairwise-append :
    {A : Type 0} (R : A → A → Type 0) (xs ys : List A)
    → Pairwise R xs
    → Pairwise R ys
    → ((x y : A) → In x xs → In y ys → R x y)
    → Pairwise R (xs ++ ys)
Pairwise-append R [] ys hx hy cross = hy
Pairwise-append R (x ∷ xs) ys hx hy cross = (
  λ y i. elim (In-append y xs ys i) [ inl l ↦ hx.0 y l | inr r ↦ cross x y (inl refl) r ],
  Pairwise-append R xs ys hx.1 hy (λ a b i j. cross a b (inr i) j),
)

-- Where the tile of the rack `j` of a corridor stands.
tile_at :
    (start i : ℕ) (rs : List FloorPlanRack) (t : Tile)
    → In t (tiles_from start i rs)
    → (j : ℕ) × (i ≤ j)
      × (j < i + length rs)
      × (t.x ≡ 16 + (j % 4) * 142)
      × (t.y ≡ start + (j / 4) * 102)
unfolding tiles_from
tile_at start i [] t m = absurd m
tile_at start i (r ∷ rs) t (inl e) =
    (i, omega arith, omega arith, ap (λ t. t.x) (sym e), ap (λ t. t.y) (sym e))
tile_at start i (r ∷ rs) t (inr m) =
    let (j, a, b, x, y) = tile_at start (suc i) rs t m in (j, omega arith, omega arith, x, y)

places_apart :
    (i j start x y u v : ℕ)
    → i < j
    → x ≡ 16 + (i % 4) * 142
    → y ≡ start + (i / 4) * 102
    → u ≡ 16 + (j % 4) * 142
    → v ≡ start + (j / 4) * 102
    → (x + 130 ≤ u) ⊎ (u + 130 ≤ x) ⊎ (y + 90 ≤ v) ⊎ (v + 90 ≤ y)
places_apart i j start x y u v h ex ey eu ev = omega arith

tiles_from-Pairwise :
    (start i : ℕ) (rs : List FloorPlanRack) → Pairwise Apart (tiles_from start i rs)
unfolding tiles_from
tiles_from-Pairwise start i [] = tt
tiles_from-Pairwise start i (r ∷ rs) = (
  λ u m.
      let (j, a, b, x, y) = tile_at start (suc i) rs u m in
      places_apart i j start _ _ u.x u.y (omega arith) refl refl x y,
  tiles_from-Pairwise start (suc i) rs,
)

-- The tiles of a corridor stand between its header and the next corridor, in its columns.
corridor_band :
    (y : ℕ) (c : FloorPlanCorridor) (t : Tile)
    → In t (tiles_from (y + 30) 0 c.racks)
    → (y + 30 ≤ t.y)
      × (t.y + 90 + 10 ≤ after_corridor y c)
      × (16 ≤ t.x)
      × (t.x + 130 ≤ 16 + cols_of c * 142 - 12)
corridor_band y c t m =
    let (j, a, b, ex, ey) = tile_at (y + 30) 0 c.racks t m in
    (omega arith, omega arith, omega arith, omega arith)

abbrev room_tiles : ℕ → List FloorPlanCorridor → List Tile
room_tiles y cs = flat_map corridor_tiles (layouts_from y cs)

end_after : (y : ℕ) (cs : List FloorPlanCorridor) → y ≤ end_of y cs
unfolding end_of
end_after y [] = omega arith
end_after y (c ∷ cs) = let h = end_after (after_corridor y c) cs in omega arith

cols_grow : (acc : ℕ) (cs : List FloorPlanCorridor) → acc ≤ max_cols_from acc cs
unfolding max_cols_from
cols_grow acc [] = omega arith
cols_grow acc (c ∷ cs) = let h = cols_grow (max acc (cols_of c)) cs in omega arith

-- Every tile of the room, from the corridor that begins at `y` on.
room_band :
    (y acc : ℕ) (cs : List FloorPlanCorridor) (t : Tile)
    → In t (room_tiles y cs)
    → (y + 30 ≤ t.y)
      × (t.y + 90 + 10 ≤ end_of y cs)
      × (16 ≤ t.x)
      × (t.x + 130 ≤ 16 + max_cols_from acc cs * 142 - 12)
unfolding layouts_from end_of max_cols_from
room_band y acc [] t m = absurd m
room_band y acc (c ∷ cs) t m =
    elim (In-append t (tiles_from (y + 30) 0 c.racks) (room_tiles (after_corridor y c) cs) m) [
      | inl here ↦
          let (a, b, d, e) = corridor_band y c t here in
          let h = end_after (after_corridor y c) cs in
          let g = cols_grow (max acc (cols_of c)) cs in (a, omega arith, d, omega arith)
      | inr later ↦
          let (a, b, d, e) = room_band (after_corridor y c) (max acc (cols_of c)) cs t later in
          (omega arith, b, d, e)
    ]

room_tiles-Pairwise : (y : ℕ) (cs : List FloorPlanCorridor) → Pairwise Apart (room_tiles y cs)
unfolding layouts_from
room_tiles-Pairwise y [] = tt
room_tiles-Pairwise y (c ∷ cs) =
    Pairwise-append Apart (tiles_from (y + 30) 0 c.racks) (room_tiles (after_corridor y c) cs)
      (tiles_from-Pairwise (y + 30) 0 c.racks) (room_tiles-Pairwise (after_corridor y c) cs)
      (λ t u i j.
        let a = corridor_band y c t i in
        let b = room_band (after_corridor y c) 1 cs u j in
        inr (inr (inl (below_next y c t u a.1 b.0))))
  where
    below_next :
        (y : ℕ) (c : FloorPlanCorridor) (t u : Tile)
        → t.y + 90 + 10 ≤ after_corridor y c
        → after_corridor y c + 30 ≤ u.y
        → t.y + 90 ≤ u.y
    below_next y c t u h k = omega arith

-- One room stands wholly to the left of the other, with the gap between them.
abbrev pub Beside : RoomNode → RoomNode → Type 0
Beside a b = a.x + a.width + 32 ≤ b.x

right_of : (x : ℕ) (rooms : List FloorPlanRoom) (n : RoomNode) → In n (nodes_from x rooms) → x ≤ n.x
unfolding nodes_from room_node
right_of x [] n m = absurd m
right_of x (r ∷ rs) n (inl e) = subst (λ n. x ≤ n.x) e (omega arith)
right_of x (r ∷ rs) n (inr m) =
    let h = right_of (x + ((room_node x r).width + 32)) rs n m in omega arith

nodes_from-Pairwise : (x : ℕ) (rooms : List FloorPlanRoom) → Pairwise Beside (nodes_from x rooms)
unfolding nodes_from room_node
nodes_from-Pairwise x [] = tt
nodes_from-Pairwise x (r ∷ rs) = (
  λ n m. let h = right_of (x + ((room_node x r).width + 32)) rs n m in omega arith,
  nodes_from-Pairwise (x + ((room_node x r).width + 32)) rs,
)

-- The tile stands in the room: below its header, within its padding.
abbrev pub Inside : Tile → RoomNode → Type 0
Inside t n = (90 ≤ t.y) × (t.y + 90 + 26 ≤ n.height) × (16 ≤ t.x) × (t.x + 130 + 16 ≤ n.width)

room_laid_out :
    (x : ℕ) (room : FloorPlanRoom) (t : Tile)
    → Pairwise Apart (room_node x room).tiles
      × (In t (room_node x room).tiles → Inside t (room_node x room))
unfolding room_node compute_room_layout
room_laid_out x room t = (
  room_tiles-Pairwise first_y room.corridors,
  λ m.
      let (a, b, c, d) = room_band first_y 1 room.corridors t m in
      let g = cols_grow 1 room.corridors in (omega arith, omega arith, c, omega arith),
)

laid_out :
    (x : ℕ) (rooms : List FloorPlanRoom) (n : RoomNode) (t : Tile)
    → In n (nodes_from x rooms)
    → Pairwise Apart n.tiles × (In t n.tiles → Inside t n)
unfolding nodes_from
laid_out x [] n t m = absurd m
laid_out x (r ∷ rs) n t (inl e) =
    subst (λ n. Pairwise Apart n.tiles × (In t n.tiles → Inside t n)) e (room_laid_out x r t)
laid_out x (r ∷ rs) n t (inr m) = laid_out (x + ((room_node x r).width + 32)) rs n t m

-- On the floor plan of any data center, with any corridors and racks in its rooms, the rooms stand
-- beside one another, 32 pixels apart or more, no two tiles of a room overlap, and each tile stands
-- inside its room, within the padding.
pub nodes_from-Apart :
    (x : ℕ) (rooms : List FloorPlanRoom) (n : RoomNode) (t : Tile)
    → In n (nodes_from x rooms)
    → In t n.tiles
    → Pairwise Beside (nodes_from x rooms) × Pairwise Apart n.tiles × Inside t n
nodes_from-Apart x rooms n t i m =
    let (apart, within) = laid_out x rooms n t i in (nodes_from-Pairwise x rooms, apart, within m)
