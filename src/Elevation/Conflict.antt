-- ===== src/Elevation/Conflict.antt =====
-- `hasConflict` of the rack views, against the slots that devices cover.
use datacenter_manager.Prelude.{
  String, ◌≡◌, refl, ◌≢◌, ◌↔◌, true, false, Option, none, some, List, [], ◌∷◌, inl, inr, arith, In,
  ap, sym, subst, ◌∙◌, Bool-cases, str_eq, eq_iff,
}
use datacenter_manager.Prelude.Int.{ℤ, pos, ◌+ℤ◌, ◌-ℤ◌, ◌≤ℤ◌, ◌<ℤ◌, ≤ℤ_total, int_laws}
use datacenter_manager.Topology.{RackElevationDevice}
use datacenter_manager.Elevation.{overlaps, has_conflict}
use datacenter_manager.Elevation.Membership.{CoversFrom, Covers}

-- Every device of the list is at least one unit high; the API answers with no other.
abbrev pub IsSized : List RackElevationDevice → Type 0
IsSized ds = (d : RackElevationDevice) → In d ds → pos 1 ≤ℤ d.rack_unit_height

-- Slot `u` belongs to the run of `height` slots from `start`, and to another device than `id`.
pub record Clash (ds : List RackElevationDevice) (id : String) (start height : ℤ) : Type 0 where
  pub device : RackElevationDevice
  pub slot : ℤ
  pub listed : In device ds
  pub other : device.id ≢ id
  pub covered : Covers device slot
  pub lower : start ≤ℤ slot
  pub upper : slot <ℤ start +ℤ height

module _ (s h : ℤ) where
  overlaps_iff :
      (a dh : ℤ)
      → (overlaps (some a) dh s h ≡ true) ↔ ((s ≤ℤ a +ℤ dh -ℤ pos 1) × (a ≤ℤ s +ℤ h -ℤ pos 1))
  overlaps_iff a dh = ground arith

  overlaps_sound :
      (start : Option ℤ) (dh : ℤ)
      → pos 1 ≤ℤ h
      → pos 1 ≤ℤ dh
      → overlaps start dh s h ≡ true
      → (u : ℤ) × CoversFrom start dh u × (s ≤ℤ u) × (u <ℤ s +ℤ h)
  overlaps_sound none dh one done e = absurd (cc)
  overlaps_sound (some a) dh one done e =
      let (p, q) = (overlaps_iff a dh).0 e in
      elim (≤ℤ_total s a) [
        | inl le ↦ (a, (omega int_laws, omega int_laws), le, omega int_laws)
        | inr ge ↦ (s, (ge, omega int_laws), omega int_laws, omega int_laws)
      ]

  overlaps_complete :
      (start : Option ℤ) (dh u : ℤ)
      → CoversFrom start dh u
      → s ≤ℤ u
      → u <ℤ s +ℤ h
      → overlaps start dh s h ≡ true
  overlaps_complete none dh u c lo hi = absurd c
  overlaps_complete (some a) dh u c lo hi = (overlaps_iff a dh).1 (omega int_laws, omega int_laws)

Clash-cons :
    (d : RackElevationDevice) {ds : List RackElevationDevice} {id : String} {s h : ℤ}
    → Clash ds id s h
    → Clash (d ∷ ds) id s h
Clash-cons d c = record {
  device = c.device;
  slot = c.slot;
  listed = inr c.listed;
  other = c.other;
  covered = c.covered;
  lower = c.lower;
  upper = c.upper;
}

pub has_conflict_sound :
    (ds : List RackElevationDevice) (id : String) (s h : ℤ)
    → IsSized ds
    → pos 1 ≤ℤ h
    → has_conflict ds id s h ≡ true
    → Clash ds id s h
unfolding has_conflict
has_conflict_sound [] id s h sized one e = absurd (cc)
has_conflict_sound (d ∷ ds) id s h sized one e =
    let later = λ (q : has_conflict ds id s h ≡ true).
      Clash-cons d (has_conflict_sound ds id s h (λ x m. sized x (inr m)) one q) in
    elim (Bool-cases (str_eq d.id id)) [
      | inl same ↦ later (rw (same, has_conflict) at e)
      | inr other ↦ elim (Bool-cases (overlaps d.rack_unit_start d.rack_unit_height s h)) [
        | inr apart ↦ later (rw (other, apart, has_conflict) at e)
        | inl meets ↦
            let (u, c, lo, hi) =
              overlaps_sound s h d.rack_unit_start d.rack_unit_height one (sized d (inl refl))
                meets in
            record {
              device = d;
              slot = u;
              listed = inl refl;
              other = λ p. cc ((eq_iff d.id id).1 p);
              covered = c;
              lower = lo;
              upper = hi;
            }
      ]
    ]

-- A device of the list that meets the run is found, wherever it stands.
has_conflict-finds :
    (ds : List RackElevationDevice) (id : String) (s h : ℤ) (d : RackElevationDevice) (u : ℤ)
    → In d ds
    → d.id ≢ id
    → Covers d u
    → s ≤ℤ u
    → u <ℤ s +ℤ h
    → has_conflict ds id s h ≡ true
unfolding has_conflict
has_conflict-finds [] id s h d u m other c lo hi = absurd m
has_conflict-finds (e ∷ ds) id s h d u (inl p) other c lo hi =
    let c' : Covers e u = subst (λ x. Covers x u) (sym p) c in
    let ne : str_eq e.id id ≡ true → ⊥ =
      λ q. other (ap (λ x. x.id) (sym p) ∙ (eq_iff e.id id).0 q) in
    let meets = overlaps_complete s h e.rack_unit_start e.rack_unit_height u c' lo hi in
    ground (arith, ne, meets)
has_conflict-finds (e ∷ ds) id s h d u (inr m) other c lo hi =
    let found = has_conflict-finds ds id s h d u m other c lo hi in ground (arith, found)

-- For sized devices and a run of at least one slot, `hasConflict` is true exactly if a slot of the
-- run belongs to another device.
pub has_conflict_iff :
    (ds : List RackElevationDevice) (id : String) (s h : ℤ)
    → IsSized ds
    → pos 1 ≤ℤ h
    → (has_conflict ds id s h ≡ true) ↔ Clash ds id s h
has_conflict_iff ds id s h sized one = (
  has_conflict_sound ds id s h sized one,
  λ c. has_conflict-finds ds id s h c.device c.slot c.listed c.other c.covered c.lower c.upper,
)

-- What the views rely on when they write: after a negative test no slot is shared.
pub has_conflict-eq-false :
    (ds : List RackElevationDevice) (id : String) (s h : ℤ)
    → has_conflict ds id s h ≡ false
    → ¬ Clash ds id s h
has_conflict-eq-false ds id s h e c =
    let found =
      has_conflict-finds ds id s h c.device c.slot c.listed c.other c.covered c.lower c.upper in
    cc (e, found)
