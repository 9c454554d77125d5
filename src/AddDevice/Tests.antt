-- ===== src/AddDevice/Tests.antt =====
-- Runs of the dialog that adds a device, in a rack of ten units with slots 1 and 2 taken.
use datacenter_manager.Prelude.{
  ℕ, ◌≡◌, ◌≢◌, ◌⊎◌, inl, inr, refl, eq_iff, In, true, false, sym, ap, ◌∙◌, subst, none, some, List,
  [], ◌∷◌, arith,
}
use datacenter_manager.Prelude.Int.{ℤ, pos, pos_part, ◌≤ℤ◌, ◌+ℤ◌, ◌-ℤ◌}
use datacenter_manager.Topology.{RackElevationDevice, active}
use datacenter_manager.Elevation.{occupied_slots}
use datacenter_manager.Elevation.Conflict.{IsSized}
use datacenter_manager.AddDevice.{
  Props, State, next_free_slot, fits, first_fit, opened, handle_type_change,
}
use datacenter_manager.AddDevice.FreeSlot.{IsFree, Suggests, next_free_slot-Suggests}
use datacenter_manager.AddDevice.Placed.{next_free_slot-IsSound}
use datacenter_manager.Elevation.Layout.{IsSound, Fits}

abbrev low_device : RackElevationDevice
low_device = record {
  id = "a";
  name = "a";
  device_type = "server";
  status = active;
  rack_unit_start = some (pos 1);
  rack_unit_height = pos 2;
  power_rated_w = none;
  power_actual_w = none;
  model = none;
  vendor = none;
}

abbrev one : List RackElevationDevice
one = low_device ∷ []

next_free_slot-Suggests_example :
    Suggests one (pos 10) (pos 3) (next_free_slot one (pos 10) (pos 3))
    ⊎ ((next_free_slot one (pos 10) (pos 3) ≡ pos 1)
        × ((w : ℤ) → pos 1 ≤ℤ w → w +ℤ pos 3 ≤ℤ pos 10 +ℤ pos 1 → IsFree one w (pos 3) → ⊥))
next_free_slot-Suggests_example = next_free_slot-Suggests one (pos 10) (pos 3)

one-IsSized : IsSized one
one-IsSized d (inl e) = subst (λ x. pos 1 ≤ℤ x.rack_unit_height) e (omega arith)
one-IsSized d (inr m) = absurd m

-- The third slot is the first that is free.
suggested : next_free_slot one (pos 10) (pos 3) ≡ pos 3
unfolding next_free_slot fits first_fit occupied_slots ◌+ℤ◌ ◌-ℤ◌
suggested = refl

third : Suggests one (pos 10) (pos 3) (pos 3)
third = elim (next_free_slot-Suggests one (pos 10) (pos 3)) [
  | inl s ↦ subst (Suggests one (pos 10) (pos 3)) suggested s
  | inr (e, n) ↦ let h : ◌≡◌ {A = ℕ} 3 1 = ap pos_part (sym suggested ∙ e) in absurd (omega arith)
]

abbrev props : Props
props = record { rack_id = "r"; total_units = pos 10; existing_devices = one; initial_unit = none }

abbrev pdu_chosen : State
pdu_chosen = handle_type_change "pdu" (opened props)

one-Fits : (d : RackElevationDevice) → In d one → Fits (pos 10) d
unfolding ◌+ℤ◌
one-Fits d (inl e) = subst (Fits (pos 10)) e (omega arith, omega arith)
one-Fits d (inr m) = absurd m

one_unique : (d e : RackElevationDevice) → In d one → In e one → d ≡ e
one_unique d e (inl p) (inl q) = sym p ∙ q
one_unique d e (inr m) n = absurd m
one_unique d e m (inr n) = absurd n

one-IsSound : IsSound (pos 10) one
one-IsSound = record {
  unique = λ d e m n same. one_unique d e m n;
  sized = one-IsSized;
  fits = one-Fits;
  apart = λ d e u m n other c c'. other (ap (λ x. x.id) (one_unique d e m n));
}

abbrev added : RackElevationDevice
added = record low_device { id = "b"; rack_unit_start = some (pos 3); rack_unit_height = pos 3 }

added_fresh : (d : RackElevationDevice) → In d one → d.id ≢ added.id
added_fresh d (inl e) same =
    let names : low_device.id ≡ added.id = ap (λ x. x.id) e ∙ same in
    let b : false ≡ true = (eq_iff "a" "b").1 names in absurd (cc)
added_fresh d (inr m) same = absurd m

added_placed : added.rack_unit_start ≡ some (next_free_slot one (pos 10) added.rack_unit_height)
added_placed = ap some (sym suggested)

next_free_slot-IsSound_example : IsSound (pos 10) (added ∷ one)
next_free_slot-IsSound_example =
    next_free_slot-IsSound (pos 10) one added (pos 3) one-IsSound added_fresh (omega arith)
      added_placed (omega arith) third.in_rack third.free
