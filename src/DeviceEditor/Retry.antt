-- ===== src/DeviceEditor/Retry.antt =====
-- What a second save sends, after a first one that left the dialog open.
use datacenter_manager.Prelude.{
  String, [], ◌∷◌, ◌≡◌, refl, sym, ap, ◌∙◌, Bool, false, Option, none, some, List, inl, inr,
  Bool-cases, head?, if◌then◌else◌,
}
use datacenter_manager.Prelude.Numerals.{is_blank}
use datacenter_manager.DeviceEditor.{State}
use datacenter_manager.DeviceEditor.Body.{cfg_of, to_body}
use datacenter_manager.DeviceEditor.Save.{
  Blade, Request, Answer, ok, failed, all_saved, answered, saved, checked, handle_save, validate,
  first_request, ext_saves, saved_id,
}

-- The states that differ from `s` in nothing that a save reads.
Alike : State → State → Type 0
Alike s t =
    (a : String) × (b : List (String × String)) × (c : Bool) × (t
      ≡ record s { error = a; field_errors = b; modal_open = c })

-- The request that a save begins with, if any.
abbrev first_of : List (String × String) → State → Option Request
first_of [] s = some (first_request s.editing (to_body (cfg_of s) s.form))
first_of (e ∷ errs) s = none

module _ (s : State) (a : String) (b : List (String × String)) (c : Bool) where
  abbrev alike : State
  alike = record s { error = a; field_errors = b; modal_open = c }

  first_of-alike : (errs : List (String × String)) → first_of errs alike ≡ first_of errs s
  first_of-alike [] = refl
  first_of-alike (e ∷ errs) = refl

  validate-alike : (blades : List Blade) → validate blades alike ≡ validate blades s
  unfolding validate
  validate-alike blades = refl

  first-alike :
      (blades : List Blade)
      → first_of (validate blades alike) alike ≡ first_of (validate blades s) s
  first-alike blades = rw (validate-alike blades) (first_of-alike (validate blades s))

module _ (send : Request → Answer) (blades : List Blade) where
  answered-Alike : (a : Answer) (s t : State) → Alike s t → Alike s (answered a t s)
  unfolding Alike answered
  answered-Alike (ok id) s t h = h
  answered-Alike (failed d) s t h = (_, s.field_errors, s.modal_open, refl)

  all_saved-Alike : (rs : List Request) (s : State) → Alike s (all_saved send rs s)
  unfolding Alike all_saved
  all_saved-Alike [] s = (s.error, s.field_errors, false, refl)
  all_saved-Alike (r ∷ rs) s =
      answered-Alike (send r) s (all_saved send rs s) (all_saved-Alike rs s)

  saved-Alike : (r : Request) (a : Answer) (s : State) → Alike s (saved send r a s).0
  unfolding Alike saved
  saved-Alike r (failed d) s = (_, s.field_errors, s.modal_open, refl)
  saved-Alike r (ok id) s = all_saved-Alike (ext_saves (saved_id s.editing id) s) s

  checked-Alike : (errs : List (String × String)) (s : State) → Alike s (checked send errs s).0
  unfolding Alike checked
  checked-Alike [] s =
      saved-Alike (first_request s.editing (to_body (cfg_of s) s.form)) _
        (record s { field_errors = [] })
  checked-Alike (e ∷ errs) s = (s.error, e ∷ errs, s.modal_open, refl)

  handle_save-Alike : (s : State) → Alike s (handle_save send blades s).0
  unfolding Alike handle_save
  handle_save-Alike s = elim (Bool-cases (is_blank s.form.name)) [
    | inl blank ↦ rw blank ("Name is required.", s.field_errors, s.modal_open, refl)
    | inr named ↦
        rw named
          (checked-Alike (validate blades (record s { error = "" })) (record s { error = "" }))
  ]

  saved-head : (r : Request) (a : Answer) (s : State) → head? (saved send r a s).1 ≡ some r
  unfolding saved
  saved-head r (failed d) s = refl
  saved-head r (ok id) s = refl

  checked-head :
      (errs : List (String × String)) (s : State) → head? (checked send errs s).1 ≡ first_of errs s
  unfolding checked
  checked-head [] s = saved-head _ _ (record s { field_errors = [] })
  checked-head (e ∷ errs) s = refl

  handle_save-head :
      (s : State)
      → head? (handle_save send blades s).1
        ≡ (if is_blank s.form.name then none else first_of (validate blades s) s)
  unfolding handle_save
  handle_save-head s = elim (Bool-cases (is_blank s.form.name)) [
    | inl blank ↦ rw blank refl
    | inr named ↦ rw named (
        checked-head _ (record s { error = "" })
        ∙ first-alike s "" s.field_errors s.modal_open blades)
  ]

  -- A save that is repeated begins with the request that the first one began with, however the API
  -- answered that one. After a device was created and the save of its extension tables failed, it
  -- is therefore created again.
  pub handle_save-again :
      (s : State)
      → head? (handle_save send blades (handle_save send blades s).0).1
        ≡ head? (handle_save send blades s).1
  unfolding Alike
  handle_save-again s =
      let (a, b, c, e) = handle_save-Alike s in
      rw e (
        handle_save-head (record s { error = a; field_errors = b; modal_open = c })
        ∙ ap (λ o. if is_blank s.form.name then none else o) (first-alike s a b c blades)
        ∙ sym (handle_save-head s))
