-- ===== src/Elevation/Tests.antt =====
-- Runs of the rack elevation on two devices in a rack of ten units.
use datacenter_manager.Prelude.{
  String, ◌≡◌, ◌≢◌, ◌↔◌, refl, sym, ap, ◌∙◌, subst, eq_iff, true, false, none, some, List, [], ◌∷◌,
  In, inl, inr, arith,
}
use datacenter_manager.Prelude.Int.{
  ℤ, pos, int_laws, parts_apart, ◌≤ℤ◌, ◌+ℤ◌, ◌-ℤ◌, max_ℤ, min_ℤ, round_div,
}
use datacenter_manager.Topology.{RackElevationDevice, active, RackElevationResponse}
use datacenter_manager.Elevation.{
  State, initial, MouseEvent, Put, rack_unit_start, start_drag, handle_mouse_move, handle_mouse_up,
  has_conflict, apply_put, DragState,
}
use datacenter_manager.Elevation.Conflict.{IsSized, Clash, has_conflict_iff}
use datacenter_manager.Elevation.Membership.{Covers}
use datacenter_manager.Elevation.Mouse.{Reach, begin, next, drag_starts, moves}
use datacenter_manager.Elevation.Layout.{IsSound, Fits, handle_mouse_up-IsSound}
use datacenter_manager.Elevation.Preview.{Previews, Reach-Previews}
use datacenter_manager.Elevation.Edits.{Edits, untouched, edited, Edits-IsSound}
use datacenter_manager.Elevation.RackDiagram.{widget}
use datacenter_manager.Elevation.RackElevation.{
  mouse_up, shown_devices, mouse_up-eq-handle_mouse_up,
}

abbrev device_at : String → ℤ → ℤ → RackElevationDevice
device_at id start height = record {
  id = id;
  name = id;
  device_type = "server";
  status = active;
  rack_unit_start = some start;
  rack_unit_height = height;
  power_rated_w = none;
  power_actual_w = none;
  model = none;
  vendor = none;
}

abbrev first_device : RackElevationDevice
first_device = device_at "a" (pos 1) (pos 2)

abbrev second_device : RackElevationDevice
second_device = device_at "b" (pos 5) (pos 1)

abbrev two : List RackElevationDevice
two = first_device ∷ second_device ∷ []

two-IsSized : IsSized two
two-IsSized d (inl e) = subst (λ x. pos 1 ≤ℤ x.rack_unit_height) e (omega arith)
two-IsSized d (inr (inl e)) = subst (λ x. pos 1 ≤ℤ x.rack_unit_height) e (omega arith)
two-IsSized d (inr (inr m)) = absurd m

names_differ : {A : Type 0} → first_device.id ≡ second_device.id → A
names_differ e = let b : false ≡ true = (eq_iff "a" "b").1 e in absurd (cc)

two_unique : (d e : RackElevationDevice) → In d two → In e two → d.id ≡ e.id → d ≡ e
two_unique d e (inl p) (inl q) h = sym p ∙ q
two_unique d e (inl p) (inr (inl q)) h =
    names_differ (ap (λ x. x.id) p ∙ h ∙ sym (ap (λ x. x.id) q))
two_unique d e (inr (inl p)) (inl q) h =
    names_differ (sym (ap (λ x. x.id) p ∙ h ∙ sym (ap (λ x. x.id) q)))
two_unique d e (inr (inl p)) (inr (inl q)) h = sym p ∙ q
two_unique d e (inr (inr m)) n h = absurd m
two_unique d e m (inr (inr n)) h = absurd n

two-Fits : (d : RackElevationDevice) → In d two → Fits (pos 10) d
unfolding ◌+ℤ◌
two-Fits d (inl e) = subst (Fits (pos 10)) e (omega arith, omega arith)
two-Fits d (inr (inl e)) = subst (Fits (pos 10)) e (omega arith, omega arith)
two-Fits d (inr (inr m)) = absurd m

no_shared_slot : (u : ℤ) → Covers first_device u → Covers second_device u → ⊥
no_shared_slot u c c' = omega (int_laws, parts_apart u, c.0, c.1, c'.0, c'.1)

two-apart :
    (d e : RackElevationDevice) (u : ℤ)
    → In d two
    → In e two
    → d.id ≢ e.id
    → Covers d u
    → Covers e u
    → ⊥
two-apart d e u (inl p) (inl q) other c c' = other (ap (λ x. x.id) (sym p ∙ q))
two-apart d e u (inl p) (inr (inl q)) other c c' =
    no_shared_slot u (subst (λ x. Covers x u) (sym p) c) (subst (λ x. Covers x u) (sym q) c')
two-apart d e u (inr (inl p)) (inl q) other c c' =
    no_shared_slot u (subst (λ x. Covers x u) (sym q) c') (subst (λ x. Covers x u) (sym p) c)
two-apart d e u (inr (inl p)) (inr (inl q)) other c c' = other (ap (λ x. x.id) (sym p ∙ q))
two-apart d e u (inr (inr m)) n other c c' = absurd m
two-apart d e u m (inr (inr n)) other c c' = absurd n

two-IsSound : IsSound (pos 10) two
two-IsSound = record {
  unique = two_unique;
  sized = two-IsSized;
  fits = two-Fits;
  apart = two-apart;
}

-- The mouse at the sixth unit.
abbrev mouse : MouseEvent
mouse = record { client_y = pos 140; rack_top = some (pos 0) }

abbrev moved : State
moved = handle_mouse_move widget 1 (pos 10) mouse (start_drag first_device initial)

moved-Reach : Reach widget 1 (pos 10) two moved
moved-Reach = next (next begin (drag_starts first_device (inl refl))) (moves mouse)

abbrev put : Put
put = record { device_id = "a"; patch = rack_unit_start (pos 6) }

moved-put : (handle_mouse_up two moved).1 ≡ some put
unfolding handle_mouse_up handle_mouse_move start_drag has_conflict max_ℤ min_ℤ ◌+ℤ◌ ◌-ℤ◌ round_div
moved-put = refl

handle_mouse_up-IsSound_example : IsSound (pos 10) (apply_put put two)
handle_mouse_up-IsSound_example =
    handle_mouse_up-IsSound widget 1 (pos 10) two moved put two-IsSound moved-Reach moved-put

has_conflict_iff_example :
    (has_conflict two "a" (pos 4) (pos 2) ≡ true) ↔ Clash two "a" (pos 4) (pos 2)
has_conflict_iff_example = has_conflict_iff two "a" (pos 4) (pos 2) two-IsSized (omega arith)

Reach-Previews_example : Previews (pos 10) two moved
Reach-Previews_example = Reach-Previews widget 1 (pos 10) two two-IsSound moved-Reach

abbrev elevation : RackElevationResponse
elevation = record { id = "r"; name = "r"; total_units = pos 10; devices = two }

mouse_up-eq-handle_mouse_up_example :
    mouse_up (some elevation) moved ≡ handle_mouse_up (shown_devices (some elevation)) moved
mouse_up-eq-handle_mouse_up_example = mouse_up-eq-handle_mouse_up (some elevation) moved

abbrev drag_of : DragState
drag_of = record {
  device_id = "a";
  original_unit = pos 1;
  current_unit = pos 4;
  device_height = pos 2;
}

moved-Edits : Edits widget 1 (pos 10) two (apply_put put two)
moved-Edits = edited moved put untouched moved-Reach moved-put

Edits-IsSound_example : IsSound (pos 10) (apply_put put two)
Edits-IsSound_example = Edits-IsSound widget 1 (pos 10) moved-Edits two-IsSound
