-- ===== src/Elevation/Layout.antt =====
-- Sound layouts of a rack, and what the release of a drag or a resize makes of them.
use datacenter_manager.Prelude.{
  ℕ, ◌≡◌, refl, ◌≢◌, Option, none, some, List, ◌⊎◌, inl, inr, arith, In, In-map, false, sym, subst,
  ◌∙◌, Bool-cases, str_eq, eq_iff,
}
use datacenter_manager.Prelude.Int.{ℤ, pos, ◌+ℤ◌, ◌≤ℤ◌, int_laws, eqb_ℤ_iff}
use datacenter_manager.Topology.{RackElevationDevice}
use datacenter_manager.Elevation.{
  Widget, DragState, ResizeState, State, Put, Patch, rack_unit_start, rack_unit_size, patched,
  apply_patch, apply_put, commit_drag, commit_resize, released, handle_mouse_up, has_conflict,
}
use datacenter_manager.Elevation.Membership.{CoversFrom, Covers}
use datacenter_manager.Elevation.Conflict.{IsSized, has_conflict-eq-false}
use datacenter_manager.Elevation.Mouse.{DragTracks, ResizeTracks, WhenSome, Reach, Reach-Tracks}

-- A device that is placed stands between slot 1 and the top slot of the rack.
abbrev pub FitsFrom : ℤ → Option ℤ → ℤ → Type 0
FitsFrom total none height = Unit
FitsFrom total (some start) height = (pos 1 ≤ℤ start) × (start +ℤ height ≤ℤ total +ℤ pos 1)

abbrev pub Fits : ℤ → RackElevationDevice → Type 0
Fits total d = FitsFrom total d.rack_unit_start d.rack_unit_height

-- A layout: ids tell devices apart, each device is at least one unit high and fits, and no two
-- devices share a slot.
pub record IsSound (total : ℤ) (ds : List RackElevationDevice) : Type 0 where
  pub unique : (d e : RackElevationDevice) → In d ds → In e ds → d.id ≡ e.id → d ≡ e
  pub sized : IsSized ds
  pub fits : (d : RackElevationDevice) → In d ds → Fits total d
  pub apart :
      (d e : RackElevationDevice) (u : ℤ)
      → In d ds
      → In e ds
      → d.id ≢ e.id
      → Covers d u
      → Covers e u
      → ⊥

-- A request that a sound layout can take: it is for a device of the list, and the device as it
-- becomes is sized, fits, and meets no slot of another.
record IsWelcome (total : ℤ) (ds : List RackElevationDevice) (p : Put) : Type 0 where
  device : RackElevationDevice
  listed : In device ds
  same_id : device.id ≡ p.device_id
  sized : pos 1 ≤ℤ (patched p.patch device).rack_unit_height
  fits : Fits total (patched p.patch device)
  clear :
      (e : RackElevationDevice) (u : ℤ)
      → In e ds
      → e.id ≢ p.device_id
      → Covers (patched p.patch device) u
      → Covers e u
      → ⊥

id-patched : (p : Patch) (d : RackElevationDevice) → (patched p d).id ≡ d.id
unfolding patched
id-patched (rack_unit_start u) d = refl
id-patched (rack_unit_size h) d = refl

module _ {total : ℤ} {ds : List RackElevationDevice} (p : Put) (s : IsSound total ds)
    (w : IsWelcome total ds p) where
  -- Under the request each device of the list stays as it is, or is the one that it names.
  data Change (d : RackElevationDevice) : RackElevationDevice → Type 0 where
    kept : d.id ≢ p.device_id → Change d d
    moved : d ≡ w.device → Change d (patched p.patch w.device)

  change : (d : RackElevationDevice) → In d ds → Change d (apply_patch p d)
  unfolding apply_patch
  change d m = elim (Bool-cases (str_eq d.id p.device_id)) [
    | inl same ↦
        let e = s.unique d w.device m w.listed ((eq_iff d.id p.device_id).0 same ∙ sym w.same_id) in
        rw same (subst (λ x. Change d (patched p.patch x)) (sym e) (moved e))
    | inr other ↦ rw other (kept (λ q. cc (other, (eq_iff d.id p.device_id).1 q)))
  ]

  unique-change :
      {d e d' e' : RackElevationDevice}
      → In d ds
      → In e ds
      → Change d d'
      → Change e e'
      → d'.id ≡ e'.id
      → d' ≡ e'
  unique-change m n (kept a) (kept b) q = s.unique _ _ m n q
  unique-change m n (kept a) (moved b) q = absurd (a (q ∙ id-patched p.patch w.device ∙ w.same_id))
  unique-change m n (moved a) (kept b) q =
      absurd (b (sym q ∙ id-patched p.patch w.device ∙ w.same_id))
  unique-change m n (moved a) (moved b) q = refl

  sized-change : {d d' : RackElevationDevice} → In d ds → Change d d' → pos 1 ≤ℤ d'.rack_unit_height
  sized-change m (kept a) = s.sized _ m
  sized-change m (moved a) = w.sized

  fits-change : {d d' : RackElevationDevice} → In d ds → Change d d' → Fits total d'
  fits-change m (kept a) = s.fits _ m
  fits-change m (moved a) = w.fits

  apart-change :
      {d e d' e' : RackElevationDevice} (u : ℤ)
      → In d ds
      → In e ds
      → Change d d'
      → Change e e'
      → d'.id ≢ e'.id
      → Covers d' u
      → Covers e' u
      → ⊥
  apart-change u m n (kept a) (kept b) q c k = s.apart _ _ u m n q c k
  apart-change u m n (kept a) (moved b) q c k = w.clear _ u m a k c
  apart-change u m n (moved a) (kept b) q c k = w.clear _ u n b c k
  apart-change u m n (moved a) (moved b) q c k = absurd (q refl)

  apply_put-IsSound : IsSound total (apply_put p ds)
  apply_put-IsSound = record {
    unique = λ d e m n q.
        let (a, ma, ea) = In-map (apply_patch p) d ds m in
        let (b, mb, eb) = In-map (apply_patch p) e ds n in
        unique-change ma mb (subst (Change a) ea (change a ma)) (subst (Change b) eb (change b mb))
          q;
    sized = λ d m.
        let (a, ma, ea) = In-map (apply_patch p) d ds m in
        sized-change ma (subst (Change a) ea (change a ma));
    fits = λ d m.
        let (a, ma, ea) = In-map (apply_patch p) d ds m in
        fits-change ma (subst (Change a) ea (change a ma));
    apart = λ d e u m n.
        let (a, ma, ea) = In-map (apply_patch p) d ds m in
        let (b, mb, eb) = In-map (apply_patch p) e ds n in
        apart-change u ma mb (subst (Change a) ea (change a ma))
          (subst (Change b) eb (change b mb));
  }

module _ {total : ℤ} {ds : List RackElevationDevice} (s : IsSound total ds) where
  -- A device of the list fits at its own place.
  fits_at :
      (d : RackElevationDevice) (a : ℤ)
      → In d ds
      → d.rack_unit_start ≡ some a
      → (pos 1 ≤ℤ a) × (a +ℤ d.rack_unit_height ≤ℤ total +ℤ pos 1)
  fits_at d a m e = subst (λ o. FitsFrom total o d.rack_unit_height) e (s.fits d m)

  drag_put-IsWelcome :
      (d : DragState)
      → DragTracks total ds d
      → d.current_unit ≢ d.original_unit
      → has_conflict ds d.device_id d.current_unit d.device_height ≡ false
      → IsWelcome total ds
          (record { device_id = d.device_id; patch = rack_unit_start d.current_unit })
  unfolding patched
  drag_put-IsWelcome d t changed free =
      let (first, last) = fits_at t.device d.original_unit t.listed t.came_from in
      let (lo, up) = in_range t.placed in
      let low : d.device_height ≤ℤ total = rw (← t.same_height) (omega int_laws) in
      record {
        device = t.device;
        listed = t.listed;
        same_id = t.same_id;
        sized = s.sized t.device t.listed;
        fits = (lo, rw t.same_height (up low));
        clear = λ e u m other c k.
            has_conflict-eq-false ds d.device_id d.current_unit d.device_height free (record {
              device = e;
              slot = u;
              listed = m;
              other = other;
              covered = k;
              lower = c.0;
              upper = rw t.same_height at c.1;
            });
      }
    where
      in_range :
          (d.current_unit ≡ d.original_unit)
            ⊎ ((pos 1 ≤ℤ d.current_unit)
                × (d.device_height ≤ℤ total → d.current_unit +ℤ d.device_height ≤ℤ total +ℤ pos 1))
          → (pos 1 ≤ℤ d.current_unit)
            × (d.device_height ≤ℤ total → d.current_unit +ℤ d.device_height ≤ℤ total +ℤ pos 1)
      in_range (inl same) = absurd (changed same)
      in_range (inr r) = r

  resize_put-IsWelcome :
      (r : ResizeState)
      → ResizeTracks total ds r
      → r.current_height ≢ r.original_height
      → has_conflict ds r.device_id r.unit_start r.current_height ≡ false
      → IsWelcome total ds
          (record { device_id = r.device_id; patch = rack_unit_size r.current_height })
  unfolding patched
  resize_put-IsWelcome r t changed free =
      let (first, last) = fits_at t.device r.unit_start t.listed t.stays_at in
      let one = s.sized t.device t.listed in
      let (lo, up) = in_range t.sized in
      let low : r.unit_start ≤ℤ total = omega int_laws in
      record {
        device = t.device;
        listed = t.listed;
        same_id = t.same_id;
        sized = lo;
        fits = subst (λ o. FitsFrom total o r.current_height) (sym t.stays_at) (first, up low);
        clear = λ e u m other c k.
            let c' = subst (λ o. CoversFrom o r.current_height u) t.stays_at c in
            has_conflict-eq-false ds r.device_id r.unit_start r.current_height free (record {
              device = e;
              slot = u;
              listed = m;
              other = other;
              covered = k;
              lower = c'.0;
              upper = c'.1;
            });
      }
    where
      in_range :
          (r.current_height ≡ r.original_height)
            ⊎ ((pos 1 ≤ℤ r.current_height)
                × (r.unit_start ≤ℤ total → r.unit_start +ℤ r.current_height ≤ℤ total +ℤ pos 1))
          → (pos 1 ≤ℤ r.current_height)
            × (r.unit_start ≤ℤ total → r.unit_start +ℤ r.current_height ≤ℤ total +ℤ pos 1)
      in_range (inl same) = absurd (changed same)
      in_range (inr q) = q

  -- What is sent, if anything is: the place or the height that the interaction previews, which
  -- differs from the one it began with and meets no other device.
  commit_drag-some :
      (d : DragState) {p : Put}
      → commit_drag ds d ≡ some p
      → (record { device_id = d.device_id; patch = rack_unit_start d.current_unit } ≡ p)
        × (d.current_unit ≢ d.original_unit)
        × (has_conflict ds d.device_id d.current_unit d.device_height ≡ false)
  unfolding commit_drag
  commit_drag-some d e = ground (arith, eqb_ℤ_iff d.current_unit d.original_unit)

  commit_resize-some :
      (r : ResizeState) {p : Put}
      → commit_resize ds r ≡ some p
      → (record { device_id = r.device_id; patch = rack_unit_size r.current_height } ≡ p)
        × (r.current_height ≢ r.original_height)
        × (has_conflict ds r.device_id r.unit_start r.current_height ≡ false)
  unfolding commit_resize
  commit_resize-some r e = ground (arith, eqb_ℤ_iff r.current_height r.original_height)

  released-IsWelcome :
      (u : State) (d : Option DragState) (r : Option ResizeState) (p : Put)
      → WhenSome (DragTracks total ds) d
      → WhenSome (ResizeTracks total ds) r
      → (released ds u d r).1 ≡ some p
      → IsWelcome total ds p
  unfolding released
  released-IsWelcome u (some d) r p t t' e =
      let (q, changed, free) = commit_drag-some d e in
      subst (IsWelcome total ds) q (drag_put-IsWelcome d t changed free)
  released-IsWelcome u none (some r) p t t' e =
      let (q, changed, free) = commit_resize-some r e in
      subst (IsWelcome total ds) q (resize_put-IsWelcome r t' changed free)
  released-IsWelcome u none none p t t' e = absurd (cc)

-- Over a sound layout, whatever the mouse did before, the request that a release sends, if it sends
-- one, asks for a sound layout again: no two devices share a slot, each is at least one unit high
-- and lies in the rack. The list stays the same during the interaction.
pub handle_mouse_up-IsSound :
    (w : Widget) (scale : ℕ) (total : ℤ) (ds : List RackElevationDevice) (s : State) (p : Put)
    → IsSound total ds
    → Reach w scale total ds s
    → (handle_mouse_up ds s).1 ≡ some p
    → IsSound total (apply_put p ds)
unfolding handle_mouse_up
handle_mouse_up-IsSound w scale total ds s p sound r e =
    let t = Reach-Tracks w scale total ds r in
    apply_put-IsSound p sound (released-IsWelcome sound s s.drag s.resize p t.drag t.resize e)
