-- ===== src/DeviceEditor/Checks.antt =====
-- What the save of the dialog has checked before it sends anything, and when it closes the dialog.
use datacenter_manager.Prelude.{
  String, [], ◌∷◌, ◌++◌, In, any-eq-false, ◌≡◌, ◌≢◌, ◌↔◌, refl, Bool, true, false, not, ◌&&◌,
  Option, List, inl, inr, subst, sym, some, str_eq, eq_iff, arith, Bool-cases,
}
use datacenter_manager.Prelude.Numerals.{parse_int, is_blank}
use datacenter_manager.DeviceForm.Coherence.{get_device_form_config-IsCoherent}
use datacenter_manager.DeviceRecords.{DeviceRead}
use datacenter_manager.DeviceEditor.{State}
use datacenter_manager.DeviceEditor.Body.{cfg_of, to_body}
use datacenter_manager.DeviceEditor.Save.{
  Blade, same_slot, is_editing, slot_taken, when_error, ip_error, place_error, slot_error,
  blade_errors, validate, Request, Answer, ok, failed, all_saved, answered, saved, checked,
  handle_save, chassis_blades, ext_saves, saved_id, first_request,
}

-- A form in order: a place wherever a rack is chosen and the type shows its place, and for a blade a
-- chassis, and a slot that no other blade has of those that are held for the chassis.
pub record IsChecked (cached : String → Option (List Blade)) (s : State) : Type 0 where
  pub placed :
      (cfg_of s).show_rack_placement ≡ true → s.form.rack_id ≢ "" → s.form.rack_unit_start ≢ ""
  pub in_chassis :
      (cfg_of s).show_blade_extension ≡ true
      → (s.server_ext.blade_chassis_id ≢ "") × (s.server_ext.blade_slot ≢ "")
  pub slot_free :
      (cfg_of s).show_blade_extension ≡ true
      → (bs : List Blade) → cached s.server_ext.blade_chassis_id ≡ some bs
      → (b : Blade) → In b bs
      → same_slot b.blade_slot (parse_int s.server_ext.blade_slot) ≡ true
      → is_editing s.editing b.id ≡ true

-- The form has the messages of no check, over some blades.
record Passes (blades : List Blade) (s : State) : Type 0 where
  pub placed :
      (cfg_of s).show_rack_placement ≡ true → s.form.rack_id ≢ "" → s.form.rack_unit_start ≢ ""
  pub in_chassis :
      (cfg_of s).show_blade_extension ≡ true
      → (s.server_ext.blade_chassis_id ≢ "") × (s.server_ext.blade_slot ≢ "")
  pub slot_free :
      (cfg_of s).show_blade_extension ≡ true
      → (b : Blade) → In b blades
      → same_slot b.blade_slot (parse_int s.server_ext.blade_slot) ≡ true
      → is_editing s.editing b.id ≡ true

when_error-nil : (t : Bool) (k m : String) → when_error t k m ≡ [] → t ≡ false
when_error-nil true k m e = absurd (cc)
when_error-nil false k m e = refl

append-nil : {A : Type 0} → (xs ys : List A) → xs ++ ys ≡ [] → (xs ≡ []) × (ys ≡ [])
append-nil [] ys e = (refl, e)
append-nil (x ∷ xs) ys e = absurd (cc)

full_text : (s : String) → s ≢ "" → str_eq s "" ≡ false
full_text s n = elim (Bool-cases (str_eq s "")) [
  | inl e ↦ absurd (n ((eq_iff s "").0 e))
  | inr e ↦ e
]

text_full : (s : String) → str_eq s "" ≡ false → s ≢ ""
text_full s h e = let r = (eq_iff s "").1 e in cc

slot_error-nil :
    (blades : List Blade) (editing : Option DeviceRead) (slot : String)
    → slot_error blades editing slot ≡ []
    → (slot ≢ "") × (slot_taken blades editing (parse_int slot) ≡ false)
unfolding slot_error
slot_error-nil blades editing slot e = elim (Bool-cases (str_eq slot "")) [
  | inl empty ↦ let q = rw empty at e in absurd (cc)
  | inr full ↦ (text_full slot full, when_error-nil _ _ _ (rw full at e))
]

place_error-nil :
    (s : State)
    → place_error (cfg_of s) s.form ≡ []
    → (cfg_of s).show_rack_placement ≡ true
    → s.form.rack_id ≢ ""
    → s.form.rack_unit_start ≢ ""
unfolding place_error
place_error-nil s e shown rack =
    let p = when_error-nil _ _ _ e in
    let coherent = get_device_form_config-IsCoherent s.form.device_type in
    let required = coherent.required_where_shown in
    let given = full_text s.form.rack_id rack in text_full s.form.rack_unit_start (ground arith)

blade_errors-nil :
    (blades : List Blade) (s : State)
    → blade_errors (cfg_of s) blades s ≡ []
    → (cfg_of s).show_blade_extension ≡ true
    → (s.server_ext.blade_chassis_id ≢ "")
      × (s.server_ext.blade_slot ≢ "")
      × (slot_taken blades s.editing (parse_int s.server_ext.blade_slot) ≡ false)
unfolding blade_errors
blade_errors-nil blades s e shown =
    let (chassis, slot) =
      append-nil
        (when_error (str_eq s.server_ext.blade_chassis_id "") "blade_chassis_id"
          "Required for blade devices")
        (slot_error blades s.editing s.server_ext.blade_slot) (rw shown at e) in
    let (given, free) = slot_error-nil blades s.editing s.server_ext.blade_slot slot in
    (text_full s.server_ext.blade_chassis_id (when_error-nil _ _ _ chassis), given, free)

validate-nil : (blades : List Blade) (s : State) → validate blades s ≡ [] → Passes blades s
unfolding validate slot_taken
validate-nil blades s e =
    let (ip, e2) =
      append-nil (ip_error s.form.management_ip)
        (place_error (cfg_of s) s.form ++ blade_errors (cfg_of s) blades s) e in
    let (place, blade) =
      append-nil (place_error (cfg_of s) s.form) (blade_errors (cfg_of s) blades s) e2 in
    record {
      placed = place_error-nil s place;
      in_chassis = λ shown. let (a, b, c) = blade_errors-nil blades s blade shown in (a, b);
      slot_free = λ shown b m same.
          let (x, y, free) = blade_errors-nil blades s blade shown in
          let none_taken =
            any-eq-false
              (λ b.
                same_slot b.blade_slot (parse_int s.server_ext.blade_slot)
                && not (is_editing s.editing b.id))
              b blades free m in
          ground arith;
    }

module _ (send : Request → Answer) (blades : List Blade) where
  checked-sends :
      (errs : List (String × String)) (s : State) → (checked send errs s).1 ≢ [] → errs ≡ []
  unfolding checked
  checked-sends [] s n = refl
  checked-sends (e ∷ errs) s n = absurd (n refl)

  handle_save-Passes : (s : State) → (handle_save send blades s).1 ≢ [] → Passes blades s
  unfolding handle_save
  handle_save-Passes s n = elim (Bool-cases (is_blank s.form.name)) [
    | inl blank ↦ absurd (rw blank at n refl)
    | inr named ↦
        let t = record s { error = "" } in
        let q = checked-sends (validate blades t) t (rw named at n) in
        let c = validate-nil blades t q in
        record { placed = c.placed; in_chassis = c.in_chassis; slot_free = c.slot_free }
  ]

chosen_blades :
    (cached : String → Option (List Blade)) (s : State) (bs : List Blade)
    → (cfg_of s).show_blade_extension ≡ true
    → s.server_ext.blade_chassis_id ≢ ""
    → cached s.server_ext.blade_chassis_id ≡ some bs
    → chassis_blades cached s ≡ bs
unfolding chassis_blades
chosen_blades cached s bs shown given held =
    rw (shown, full_text s.server_ext.blade_chassis_id given, held) refl

-- If a save sends any request, whatever the API answers, the form is in order: where its type shows the
-- place in the rack, a chosen rack comes with a place; and a blade has a chassis and a slot. If the
-- query library holds the blades of that chassis, none of those that it holds has the slot but the one
-- that is edited.
pub handle_save-IsChecked :
    (send : Request → Answer) (cached : String → Option (List Blade)) (s : State)
    → (handle_save send (chassis_blades cached s) s).1 ≢ []
    → IsChecked cached s
handle_save-IsChecked send cached s n =
    let c = handle_save-Passes send (chassis_blades cached s) s n in
    record {
      placed = c.placed;
      in_chassis = c.in_chassis;
      slot_free = λ shown bs held b m same.
          let e = chosen_blades cached s bs shown (c.in_chassis shown).0 held in
          c.slot_free shown b (subst (In b) (sym e) m) same;
    }

-- The API answers every one of some requests with success.
pub AllOk : (Request → Answer) → List Request → Type 0
AllOk send rs = (r : Request) → In r rs → (id : String) × (send r ≡ ok id)

module _ (send : Request → Answer) where
  answered-closes :
      (r : Request) (rs : List Request) (s : State) (a : Answer) (after : State)
      → send r ≡ a
      → s.modal_open ≡ true
      → (after.modal_open ≡ false) ↔ AllOk send rs
      → ((answered a after s).modal_open ≡ false) ↔ AllOk send (r ∷ rs)
  unfolding AllOk answered
  answered-closes r rs s (ok id) after e opened (to, from) = (
    λ shut q m. elim m [
      | inl here ↦ (id, subst (λ x. send x ≡ ok id) here e)
      | inr later ↦ to shut q later
    ],
    λ all. from (λ q m. all q (inr m)),
  )
  answered-closes r rs s (failed d) after e opened rest =
      (λ shut. absurd (cc), λ all. let (id, good) = all r (inl refl) in absurd (cc))

  saved-sends : (r : Request) (s : State) (a : Answer) → (saved send r a s).1 ≢ []
  unfolding saved
  saved-sends r s (ok id) e = cc
  saved-sends r s (failed d) e = cc

  all_saved-closes :
      (rs : List Request) (s : State)
      → s.modal_open ≡ true
      → ((all_saved send rs s).modal_open ≡ false) ↔ AllOk send rs
  unfolding AllOk all_saved
  all_saved-closes [] s opened = (λ e r m. absurd m, λ all. refl)
  all_saved-closes (r ∷ rs) s opened =
      answered-closes r rs s (send r) (all_saved send rs s) refl opened
        (all_saved-closes rs s opened)

  saved-closes :
      (r : Request) (s : State) (a : Answer)
      → send r ≡ a
      → s.modal_open ≡ true
      → ((saved send r a s).0.modal_open ≡ false) ↔ AllOk send (saved send r a s).1
  unfolding saved AllOk
  saved-closes r s (failed d) e opened =
      (λ shut. absurd (cc), λ all. let (id, good) = all r (inl refl) in absurd (cc))
  saved-closes r s (ok new_id) e opened =
      answered-closes r (ext_saves (saved_id s.editing new_id) s) s (ok new_id)
        (all_saved send (ext_saves (saved_id s.editing new_id) s) s) e opened
        (all_saved-closes (ext_saves (saved_id s.editing new_id) s) s opened)

  checked-closes :
      (errs : List (String × String)) (s : State)
      → s.modal_open ≡ true
      → ((checked send errs s).0.modal_open ≡ false)
        ↔ ((checked send errs s).1 ≢ []) × AllOk send (checked send errs s).1
  unfolding checked
  checked-closes [] s opened =
      let r = first_request s.editing (to_body (cfg_of s) s.form) in
      let t = record s { field_errors = [] } in
      let (to, from) = saved-closes r t (send r) refl opened in
      (λ shut. (saved-sends r t (send r), to shut), λ all. from all.1)
  checked-closes (e ∷ errs) s opened = (λ shut. absurd (cc), λ all. absurd (all.0 refl))

  -- A save from the open dialog closes it exactly if it sends something and the API accepts every
  -- request that it sends, those for the extension tables included.
  pub handle_save-closes_iff :
      (blades : List Blade) (s : State)
      → s.modal_open ≡ true
      → ((handle_save send blades s).0.modal_open ≡ false)
        ↔ ((handle_save send blades s).1 ≢ []) × AllOk send (handle_save send blades s).1
  unfolding handle_save checked
  handle_save-closes_iff blades s opened = elim (Bool-cases (is_blank s.form.name)) [
    | inl blank ↦ rw blank (λ shut. absurd (cc), λ all. absurd (all.0 refl))
    | inr named ↦
        let t = record s { error = "" } in rw named (checked-closes (validate blades t) t opened)
  ]
