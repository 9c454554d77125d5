-- ===== src/Elevation/Membership.antt =====
-- Which slots a device covers, and the loops that collect them.
use datacenter_manager.Prelude.{
  ℕ, zero, suc, ◌≡◌, refl, ap, sym, subst, ◌↔◌, true, Option, none, some, List, [], ◌∷◌, inl, inr,
  arith, In, In-append, In-append_left, In-append_right, Bool-cases,
}
use datacenter_manager.Prelude.Int.{
  ℤ, pos, ◌+ℤ◌, pos_part, neg_part, ◌≤ℤ◌, ◌<ℤ◌, int_laws, parts_apart, eqb_ℤ, eqb_ℤ_iff, +ℤ_parts,
}
use datacenter_manager.Topology.{RackElevationDevice}
use datacenter_manager.Elevation.{slots_from, device_slots, slots_at, occupied_slots, has_slot}

-- The slots of a device that starts at `start`, or nowhere.
abbrev pub CoversFrom : Option ℤ → ℤ → ℤ → Type 0
CoversFrom none height u = ⊥
CoversFrom (some start) height u = (start ≤ℤ u) × (u <ℤ start +ℤ height)

abbrev pub Covers : RackElevationDevice → ℤ → Type 0
Covers d u = CoversFrom d.rack_unit_start d.rack_unit_height u

pub has_slot_iff : (vs : List ℤ) (u : ℤ) → (has_slot vs u ≡ true) ↔ In u vs
has_slot_iff [] u = (λ h. cc, λ m. absurd m)
has_slot_iff (v ∷ vs) u = ground (arith, has_slot_iff vs u, eqb_ℤ_iff v u)

pub slots_from_sound :
    (a : ℤ) (n : ℕ) (u : ℤ) → In u (slots_from a n) → (a ≤ℤ u) × (u <ℤ a +ℤ pos n)
unfolding slots_from
slots_from_sound a zero u m = absurd m
slots_from_sound a (suc n) u (inl e) =
    let p = ap pos_part e in let q = ap neg_part e in (omega int_laws, omega int_laws)
slots_from_sound a (suc n) u (inr m) =
    let (lo, hi) = slots_from_sound (a +ℤ pos 1) n u m in (omega int_laws, omega int_laws)

pub slots_from_complete : (a : ℤ) (n : ℕ) (u : ℤ) → a ≤ℤ u → u <ℤ a +ℤ pos n → In u (slots_from a n)
unfolding slots_from
slots_from_complete a zero u lo hi = absurd (omega int_laws)
slots_from_complete a (suc n) u lo hi = elim (Bool-cases (eqb_ℤ a u)) [
  | inl e ↦ inl ((eqb_ℤ_iff a u).0 e)
  | inr ne ↦
      inr
        (slots_from_complete (a +ℤ pos 1) n u (ground (arith, +ℤ_parts a (pos 1))) (omega int_laws))
]

slots_at_sound :
    (start : Option ℤ) (height u : ℤ) → In u (slots_at start height) → CoversFrom start height u
slots_at_sound none height u m = m
slots_at_sound (some a) height u m =
    let (lo, hi) = slots_from_sound a (pos_part height) u m in
    (lo, omega (int_laws, parts_apart height))

slots_at_complete :
    (start : Option ℤ) (height u : ℤ) → CoversFrom start height u → In u (slots_at start height)
slots_at_complete none height u m = m
slots_at_complete (some a) height u (lo, hi) =
    slots_from_complete a (pos_part height) u lo (omega (int_laws, parts_apart height))

pub device_slots_iff : (d : RackElevationDevice) (u : ℤ) → In u (device_slots d) ↔ Covers d u
unfolding device_slots
device_slots_iff d u = (
  slots_at_sound d.rack_unit_start d.rack_unit_height u,
  slots_at_complete d.rack_unit_start d.rack_unit_height u,
)

-- A slot is in the set exactly if some device of the list covers it.
pub occupied_slots_sound :
    (ds : List RackElevationDevice) (u : ℤ)
    → In u (occupied_slots ds)
    → (d : RackElevationDevice) × In d ds × Covers d u
unfolding occupied_slots
occupied_slots_sound [] u m = absurd m
occupied_slots_sound (d ∷ ds) u m = elim (In-append u (device_slots d) (occupied_slots ds) m) [
  | inl here ↦ (d, inl refl, (device_slots_iff d u).0 here)
  | inr later ↦ let (e, n, c) = occupied_slots_sound ds u later in (e, inr n, c)
]

pub occupied_slots_complete :
    (ds : List RackElevationDevice) (d : RackElevationDevice) (u : ℤ)
    → In d ds
    → Covers d u
    → In u (occupied_slots ds)
unfolding occupied_slots
occupied_slots_complete [] d u m c = absurd m
occupied_slots_complete (e ∷ ds) d u (inl p) c =
    let c' : Covers e u = subst (λ x. Covers x u) (sym p) c in
    In-append_left u (device_slots e) (occupied_slots ds) ((device_slots_iff e u).1 c')
occupied_slots_complete (e ∷ ds) d u (inr m) c =
    In-append_right u (device_slots e) (occupied_slots ds) (occupied_slots_complete ds d u m c)
