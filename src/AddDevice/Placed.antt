-- ===== src/AddDevice/Placed.antt =====
-- A device that is added where the dialog suggests.
use datacenter_manager.Prelude.{List, ◌∷◌, ◌≡◌, ◌≢◌, In, inl, inr, some, sym, ◌∙◌, ap, subst}
use datacenter_manager.Prelude.Int.{ℤ, pos, ◌≤ℤ◌, ◌+ℤ◌}
use datacenter_manager.Topology.{RackElevationDevice}
use datacenter_manager.Elevation.Membership.{Covers, CoversFrom}
use datacenter_manager.Elevation.Layout.{IsSound, Fits, FitsFrom}
use datacenter_manager.AddDevice.{next_free_slot}
use datacenter_manager.AddDevice.FreeSlot.{Suggests, IsFree, next_free_slot-Suggests}

module _ (total : ℤ) (ds : List RackElevationDevice) (new : RackElevationDevice) (r : ℤ)
    (sound : IsSound total ds) (fresh : (d : RackElevationDevice) → In d ds → d.id ≢ new.id)
    (one : pos 1 ≤ℤ new.rack_unit_height) (placed : new.rack_unit_start ≡ some r)
    (suggested : Suggests ds total new.rack_unit_height r) where
  free : (d : RackElevationDevice) (u : ℤ) → In d ds → Covers new u → Covers d u → ⊥
  free d u m c c' =
      let (lo, hi) : CoversFrom (some r) new.rack_unit_height u =
        subst (λ o. CoversFrom o new.rack_unit_height u) placed c in
      suggested.free u lo hi d m c'

  unique_with :
      (d e : RackElevationDevice) → In d (new ∷ ds) → In e (new ∷ ds) → d.id ≡ e.id → d ≡ e
  unique_with d e (inl p) (inl q) same = sym p ∙ q
  unique_with d e (inl p) (inr n) same = absurd (fresh e n (sym same ∙ sym (ap (λ x. x.id) p)))
  unique_with d e (inr m) (inl q) same = absurd (fresh d m (same ∙ sym (ap (λ x. x.id) q)))
  unique_with d e (inr m) (inr n) same = sound.unique d e m n same

  apart_with :
      (d e : RackElevationDevice) (u : ℤ)
      → In d (new ∷ ds)
      → In e (new ∷ ds)
      → d.id ≢ e.id
      → Covers d u
      → Covers e u
      → ⊥
  apart_with d e u (inl p) (inl q) other c c' = other (ap (λ x. x.id) (sym p ∙ q))
  apart_with d e u (inl p) (inr n) other c c' = free e u n (subst (λ x. Covers x u) (sym p) c) c'
  apart_with d e u (inr m) (inl q) other c c' = free d u m (subst (λ x. Covers x u) (sym q) c') c
  apart_with d e u (inr m) (inr n) other c c' = sound.apart d e u m n other c c'

  Suggests-IsSound : IsSound total (new ∷ ds)
  Suggests-IsSound = record {
    unique = unique_with;
    sized = λ d m. elim m [
      | inl p ↦ subst (λ x. pos 1 ≤ℤ x.rack_unit_height) p one
      | inr n ↦ sound.sized d n
    ];
    fits = λ d m. elim m [
      | inl p ↦ subst (Fits total) p (
          subst (λ o. FitsFrom total o new.rack_unit_height) (sym placed)
            (suggested.from_one, suggested.in_rack))
      | inr n ↦ sound.fits d n
    ];
    apart = apart_with;
  }

-- A device with a new id, at least one unit high, is added to a sound layout at the slot that the
-- dialog suggests for its height. If there is a free run of slots for it at all, from slot 1 on and
-- within the rack, the layout stays sound.
pub next_free_slot-IsSound :
    (total : ℤ) (ds : List RackElevationDevice) (new : RackElevationDevice) (w : ℤ)
    → IsSound total ds
    → ((d : RackElevationDevice) → In d ds → d.id ≢ new.id)
    → pos 1 ≤ℤ new.rack_unit_height
    → new.rack_unit_start ≡ some (next_free_slot ds total new.rack_unit_height)
    → pos 1 ≤ℤ w
    → w +ℤ new.rack_unit_height ≤ℤ total +ℤ pos 1
    → IsFree ds w new.rack_unit_height
    → IsSound total (new ∷ ds)
next_free_slot-IsSound total ds new w sound fresh one placed lo hi free_run =
    elim (next_free_slot-Suggests ds total new.rack_unit_height) [
      | inl suggested ↦ Suggests-IsSound total ds new _ sound fresh one placed suggested
      | inr (e, none_fits) ↦ absurd (none_fits w lo hi free_run)
    ]
