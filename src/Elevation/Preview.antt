-- ===== src/Elevation/Preview.antt =====
-- What a drag or a resize previews over a sound layout.
use datacenter_manager.Prelude.{ℕ, ◌≡◌, Option, none, some, List, inl, inr, In, subst, sym}
use datacenter_manager.Prelude.Int.{ℤ, pos, ◌+ℤ◌, ◌≤ℤ◌, int_laws}
use datacenter_manager.Topology.{RackElevationDevice}
use datacenter_manager.Elevation.{Widget, DragState, ResizeState, State}
use datacenter_manager.Elevation.Mouse.{
  DragTracks, ResizeTracks, WhenSome, Tracks, Reach, Reach-Tracks,
}
use datacenter_manager.Elevation.Layout.{IsSound, FitsFrom}

-- A run of at least one slot between slot 1 and the top slot of the rack.
abbrev pub InRack : ℤ → ℤ → ℤ → Type 0
InRack total start height =
    (pos 1 ≤ℤ start) × (pos 1 ≤ℤ height) × (start +ℤ height ≤ℤ total +ℤ pos 1)

-- A drag is that of a device of the list, with its height and its first slot, and previews a place in
-- the rack; a resize likewise previews a height that ends in the rack.
pub record Previews (total : ℤ) (devices : List RackElevationDevice) (s : State) : Type 0 where
  pub tracks : Tracks total devices s
  pub drag : WhenSome (λ d. InRack total d.current_unit d.device_height) s.drag
  pub resize : WhenSome (λ r. InRack total r.unit_start r.current_height) s.resize

module _ {total : ℤ} {devices : List RackElevationDevice} (sound : IsSound total devices) where
  stands :
      (d : RackElevationDevice) (start height : ℤ)
      → In d devices
      → d.rack_unit_start ≡ some start
      → d.rack_unit_height ≡ height
      → InRack total start height
  stands d start height m e h =
      let sized = sound.sized d m in
      let placed : FitsFrom total (some start) d.rack_unit_height =
        subst (λ o. FitsFrom total o d.rack_unit_height) e (sound.fits d m) in
      subst (InRack total start) h (placed.0, sized, placed.1)

  drag-InRack :
      (d : DragState) → DragTracks total devices d → InRack total d.current_unit d.device_height
  drag-InRack d t =
      let (a, b, c) =
        stands t.device d.original_unit d.device_height t.listed t.came_from t.same_height in
      elim t.placed [
        | inl same ↦ subst (λ u. InRack total u d.device_height) (sym same) (a, b, c)
        | inr (lo, hi) ↦ (lo, b, hi (omega int_laws))
      ]

  resize-InRack :
      (r : ResizeState) → ResizeTracks total devices r → InRack total r.unit_start r.current_height
  resize-InRack r t =
      let (a, b, c) =
        stands t.device r.unit_start r.original_height t.listed t.stays_at t.same_height in
      elim t.sized [
        | inl same ↦ subst (InRack total r.unit_start) (sym same) (a, b, c)
        | inr (lo, hi) ↦ (a, lo, hi (omega int_laws))
      ]

  drag-WhenSome :
      (o : Option DragState)
      → WhenSome (DragTracks total devices) o
      → WhenSome (λ d. InRack total d.current_unit d.device_height) o
  drag-WhenSome none t = tt
  drag-WhenSome (some d) t = drag-InRack d t

  resize-WhenSome :
      (o : Option ResizeState)
      → WhenSome (ResizeTracks total devices) o
      → WhenSome (λ r. InRack total r.unit_start r.current_height) o
  resize-WhenSome none t = tt
  resize-WhenSome (some r) t = resize-InRack r t

-- Over a sound layout, in every state that the events of the mouse reach, a drag or a resize in
-- progress is that of a placed device of the list, with its height and its first slot, and previews a
-- run of at least one slot from slot 1 on that ends in the rack.
pub Reach-Previews :
    (w : Widget) (scale : ℕ) (total : ℤ) (devices : List RackElevationDevice) {s : State}
    → IsSound total devices
    → Reach w scale total devices s
    → Previews total devices s
Reach-Previews w scale total devices {s} sound r =
    let t = Reach-Tracks w scale total devices r in
    record {
      tracks = t;
      drag = drag-WhenSome sound s.drag t.drag;
      resize = resize-WhenSome sound s.resize t.resize;
    }
