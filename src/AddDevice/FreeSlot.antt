-- ===== src/AddDevice/FreeSlot.antt =====
-- The slot that the dialog suggests.
use datacenter_manager.Prelude.{
  ℕ, zero, suc, ◌≡◌, refl, true, false, List, ◌⊎◌, inl, inr, In, Bool-cases, String,
}
use datacenter_manager.Prelude.Int.{
  ℤ, pos, pos_part, ◌+ℤ◌, ◌-ℤ◌, ◌≤ℤ◌, ◌<ℤ◌, int_laws, parts_apart, ≤ℤ_split,
}
use datacenter_manager.Topology.{RackElevationDevice}
use datacenter_manager.Elevation.{occupied_slots, has_slot, has_conflict}
use datacenter_manager.Elevation.Membership.{
  Covers, has_slot_iff, occupied_slots_sound, occupied_slots_complete,
}
use datacenter_manager.Elevation.Conflict.{IsSized, has_conflict_sound}
use datacenter_manager.AddDevice.{fits, first_fit, next_free_slot}

-- No device covers a slot of the run of `height` slots from `u`.
abbrev pub IsFree : List RackElevationDevice → ℤ → ℤ → Type 0
IsFree ds u height =
    (v : ℤ) → u ≤ℤ v → v <ℤ u +ℤ height → (d : RackElevationDevice) → In d ds → Covers d v → ⊥

fits_sound :
    (occ : List ℤ) (u : ℤ) (n : ℕ) (h : ℤ)
    → fits occ u n h ≡ true
    → (v : ℤ) → u +ℤ h ≤ℤ v
    → v <ℤ u +ℤ h +ℤ pos n
    → In v occ
    → ⊥
unfolding fits
fits_sound occ u zero h e v lo hi m = absurd (omega int_laws)
fits_sound occ u (suc n) h e v lo hi m = elim (Bool-cases (has_slot occ (u +ℤ h))) [
  | inl taken ↦ absurd (cc (rw taken at e))
  | inr free ↦ elim (≤ℤ_split (u +ℤ h) v lo) [
    | inl here ↦ cc (free, (has_slot_iff occ (u +ℤ h)).1 (rw (← here) m))
    | inr later ↦
        fits_sound occ u n (h +ℤ pos 1) (rw free at e) v (omega int_laws) (omega int_laws) m
  ]
]

fits_complete :
    (occ : List ℤ) (u : ℤ) (n : ℕ) (h : ℤ)
    → ((v : ℤ) → u +ℤ h ≤ℤ v → v <ℤ u +ℤ h +ℤ pos n → In v occ → ⊥)
    → fits occ u n h ≡ true
unfolding fits
fits_complete occ u zero h free = refl
fits_complete occ u (suc n) h free =
    let rest =
      fits_complete occ u n (h +ℤ pos 1) (λ v lo hi. free v (omega int_laws) (omega int_laws)) in
    elim (Bool-cases (has_slot occ (u +ℤ h))) [
      | inl taken ↦
          absurd
            (free (u +ℤ h) (omega int_laws) (omega int_laws) ((has_slot_iff occ (u +ℤ h)).0 taken))
      | inr open_slot ↦ rw open_slot rest
    ]

-- What the outer loop returns over the places from `u` to before `u + n`: the first that fits, or 1.
first_fit_lem :
    (occ : List ℤ) (height : ℤ) (n : ℕ) (u : ℤ)
    → ((u ≤ℤ first_fit occ height n u)
        × (first_fit occ height n u <ℤ u +ℤ pos n)
        × (fits occ (first_fit occ height n u) (pos_part height) (pos 0) ≡ true)
        × ((w : ℤ)
            → u ≤ℤ w
            → w <ℤ first_fit occ height n u
            → fits occ w (pos_part height) (pos 0) ≡ false))
      ⊎ ((first_fit occ height n u ≡ pos 1)
          × ((w : ℤ) → u ≤ℤ w → w <ℤ u +ℤ pos n → fits occ w (pos_part height) (pos 0) ≡ false))
unfolding first_fit
first_fit_lem occ height zero u = inr (refl, λ w lo hi. absurd (omega int_laws))
first_fit_lem occ height (suc n) u = elim (Bool-cases (fits occ u (pos_part height) (pos 0))) [
  | inl fit ↦ rw fit (inl (omega int_laws, omega int_laws, fit, λ w lo hi. absurd (omega int_laws)))
  | inr no_fit ↦
      let before =
        λ (w : ℤ) (lo : u ≤ℤ w)
            (k : u +ℤ pos 1 ≤ℤ w → fits occ w (pos_part height) (pos 0) ≡ false).
          at_or_after no_fit w (≤ℤ_split u w lo) k in
      rw no_fit (elim (first_fit_lem occ height n (u +ℤ pos 1)) [
        | inl (lo, hi, fit, none_before) ↦ inl (
          omega int_laws,
          omega int_laws,
          fit,
          λ w le lt. before w le (λ le'. none_before w le' lt),
        )
        | inr (one, none_fits) ↦
            inr (one, λ w le lt. before w le (λ le'. none_fits w le' (omega int_laws)))
      ])
]
  where
    at_or_after :
        fits occ u (pos_part height) (pos 0) ≡ false
        → (w : ℤ) → (w ≡ u) ⊎ (u +ℤ pos 1 ≤ℤ w)
        → (u +ℤ pos 1 ≤ℤ w → fits occ w (pos_part height) (pos 0) ≡ false)
        → fits occ w (pos_part height) (pos 0) ≡ false
    at_or_after no_fit w (inl same) k = rw same no_fit
    at_or_after no_fit w (inr le) k = k le

module _ (ds : List RackElevationDevice) (height : ℤ) where
  fits-IsFree :
      (u : ℤ) → fits (occupied_slots ds) u (pos_part height) (pos 0) ≡ true → IsFree ds u height
  fits-IsFree u e v lo hi d m c =
      fits_sound (occupied_slots ds) u (pos_part height) (pos 0) e v (omega int_laws)
        (omega (int_laws, parts_apart height)) (occupied_slots_complete ds d v m c)

  IsFree-fits :
      (u : ℤ) → IsFree ds u height → fits (occupied_slots ds) u (pos_part height) (pos 0) ≡ true
  IsFree-fits u free = fits_complete (occupied_slots ds) u (pos_part height) (pos 0) λ v lo hi m.
      let (d, n, c) = occupied_slots_sound ds v m in
      free v (omega int_laws) (omega (int_laws, parts_apart height)) d n c

-- The suggestion: the first place of the rack whose run is free, or 1 where the rack has none.
pub record Suggests (ds : List RackElevationDevice) (total height r : ℤ) : Type 0 where
  pub from_one : pos 1 ≤ℤ r
  pub in_rack : r +ℤ height ≤ℤ total +ℤ pos 1
  pub free : IsFree ds r height
  pub first : (w : ℤ) → pos 1 ≤ℤ w → w <ℤ r → IsFree ds w height → ⊥

-- For every list of devices, height of the rack and height of the device, the slot suggested is the
-- first from slot 1 on whose run of slots ends in the rack and is free; or no slot from 1 on is such
-- a slot, and the suggestion is 1.
pub next_free_slot-Suggests :
    (ds : List RackElevationDevice) (total height : ℤ)
    → Suggests ds total height (next_free_slot ds total height)
      ⊎ ((next_free_slot ds total height ≡ pos 1)
          × ((w : ℤ) → pos 1 ≤ℤ w → w +ℤ height ≤ℤ total +ℤ pos 1 → IsFree ds w height → ⊥))
unfolding next_free_slot
next_free_slot-Suggests ds total height =
    elim (first_fit_lem (occupied_slots ds) height rounds (pos 1)) [
      | inl (lo, hi, fit, none_before) ↦ inl (record {
        from_one = lo;
        in_rack = omega (int_laws, parts_apart (total -ℤ height +ℤ pos 1));
        free = fits-IsFree ds height _ fit;
        first = λ w le lt free. cc (none_before w le lt, IsFree-fits ds height w free);
      })
      | inr (one, none_fits) ↦ inr (
        one,
        λ w le lt free. cc (
          none_fits w le (omega (int_laws, parts_apart (total -ℤ height +ℤ pos 1))),
          IsFree-fits ds height w free,
        ),
      )
    ]
  where
    rounds : ℕ
    rounds = pos_part (total -ℤ height +ℤ pos 1)

-- A suggested place that is free is one that the views would let a device be dragged to.
pub Suggests-has_conflict :
    (ds : List RackElevationDevice) (total height r : ℤ) (id : String)
    → IsSized ds
    → pos 1 ≤ℤ height
    → Suggests ds total height r
    → has_conflict ds id r height ≡ false
Suggests-has_conflict ds total height r id sized one s =
    elim (Bool-cases (has_conflict ds id r height)) [
      | inr no_conflict ↦ no_conflict
      | inl conflict ↦
          let c = has_conflict_sound ds id r height sized one conflict in
          absurd (s.free c.slot c.lower c.upper c.device c.listed c.covered)
    ]
