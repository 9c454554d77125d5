-- ===== src/DeviceEditor/ChassisBlades.antt =====
-- frontend/src/pages/Devices.tsx: the dialog of a chassis that adds a blade.
use Prim.Native.String.{◌++◌ as str_append}
use datacenter_manager.Prelude.{
  String, [], ◌∷◌, ◌≡◌, ◌≢◌, Bool, true, false, List, In, inl, inr, any, any-eq-false, str_eq,
  head?, ap, refl, arith, Bool-cases, if◌then◌else◌,
}
use datacenter_manager.Prelude.Numerals.{parse_int, is_blank}
use datacenter_manager.DeviceEditor.Body.{Body, text, or_null, number_or_nan}
use datacenter_manager.DeviceEditor.Save.{
  Blade, same_slot, Request, create, put_server, Answer, ok, failed, Detail, message, messages,
  unreadable, number_text, joined_messages,
}

pub record BladeFormData : Type 0 where
  pub name : String
  pub slot : String
  pub manufacturer : String
  pub model : String
  pub serial_number : String
  pub status : String

abbrev pub empty_blade_form : BladeFormData
empty_blade_form = record {
  name = "";
  slot = "";
  manufacturer = "";
  model = "";
  serial_number = "";
  status = "active";
}

pub record State : Type 0 where
  pub add_open : Bool
  pub blade_form : BladeFormData
  pub blade_error : String
  pub blade_slot_error : String

pub open_add : State → State
open_add s = record s {
  add_open = true;
  blade_form = empty_blade_form;
  blade_error = "";
  blade_slot_error = "";
}

blade_error_text : Detail → String
blade_error_text (message m) = m
blade_error_text (messages ms) = joined_messages ms
blade_error_text unreadable = "Failed to add blade."

abbrev blade_body : BladeFormData → Body
blade_body f =
    ("name", text f.name)
    ∷ ("device_type", text "blade")
    ∷ ("manufacturer", or_null f.manufacturer)
    ∷ ("model", or_null f.model)
    ∷ ("serial_number", or_null f.serial_number)
    ∷ ("status", text f.status)
    ∷ []

abbrev slot_body : String → BladeFormData → Body
slot_body chassis_id f =
    ("blade_chassis_id", text chassis_id) ∷ ("blade_slot", number_or_nan (parse_int f.slot)) ∷ []

-- What follows the answer to the second request.
placed : Answer → State → State
unfolding blade_error_text
placed (ok id) s = record s { add_open = false; blade_form = empty_blade_form }
placed (failed d) s = record s { blade_error = blade_error_text d }

module _ (send : Request → Answer) (chassis_id : String) where
  created : Answer → State → State × List Request
  unfolding placed blade_error_text
  created (failed d) s =
      (record s { blade_error = blade_error_text d }, create (blade_body s.blade_form) ∷ [])
  created (ok id) s =
      let put = put_server id (slot_body chassis_id s.blade_form) in
      (placed (send put) s, create (blade_body s.blade_form) ∷ put ∷ [])

  -- `blades` are those that the chassis holds. The flag of the button, which is set while the
  -- requests are under way, is left out.
  unfoldable pub handle_add_blade : List Blade → State → State × List Request
  unfolding created is_blank parse_int
  handle_add_blade blades s =
      let t = record s { blade_error = ""; blade_slot_error = "" } in
      let n = parse_int s.blade_form.slot in
      if is_blank s.blade_form.name
      then (record t { blade_error = "Name is required." }, [])
      else if str_eq s.blade_form.slot ""
      then (record t { blade_slot_error = "Slot number is required." }, [])
      else if any (λ b. same_slot b.blade_slot n) blades
      then (
        record t {
          blade_slot_error =
              str_append "Slot " (str_append (number_text n) " is already occupied.");
        },
        [],
      )
      else created (send (create (blade_body s.blade_form))) t

module _ (send : Request → Answer) (chassis_id : String) where
  created_sends : (a : Answer) (s : State) → (created send chassis_id a s).1 ≢ []
  unfolding created
  created_sends (failed d) s e = let h = ap head? e in cc
  created_sends (ok id) s e = let h = ap head? e in cc

  -- What the slots of the blades decide, once a name and a slot are given.
  module _ (blades : List Blade) (s : State) (named : is_blank s.blade_form.name ≡ false)
      (given : str_eq s.blade_form.slot "" ≡ false) where
    pub handle_add_blade_taken :
        any (λ b. same_slot b.blade_slot (parse_int s.blade_form.slot)) blades ≡ true
        → (handle_add_blade send chassis_id blades s).1 ≡ []
    unfolding handle_add_blade
    handle_add_blade_taken taken = rw (named, given, taken) refl

    pub handle_add_blade_free :
        any (λ b. same_slot b.blade_slot (parse_int s.blade_form.slot)) blades ≡ false
        → (handle_add_blade send chassis_id blades s).1 ≢ []
    unfolding handle_add_blade
    handle_add_blade_free free =
        rw (named, given, free) (created_sends (send (create (blade_body s.blade_form))) _)

-- No two blades are in one slot.
unfoldable pub IsDistinct : List Blade → Type 0
IsDistinct [] = Unit
IsDistinct (b ∷ bs) =
    ((c : Blade) → In c bs → same_slot c.blade_slot b.blade_slot ≡ false) × IsDistinct bs

-- If adding a blade sends anything, the chassis's blades and the new one stand in different slots
-- as long as those that it held did.
pub handle_add_blade-IsDistinct :
    (send : Request → Answer) (chassis_id : String) (blades : List Blade) (s : State) (id : String)
    → IsDistinct blades
    → (handle_add_blade send chassis_id blades s).1 ≢ []
    → IsDistinct (record { id = id; blade_slot = parse_int s.blade_form.slot } ∷ blades)
unfolding handle_add_blade IsDistinct
handle_add_blade-IsDistinct send chassis_id blades s id distinct sends =
    let n = parse_int s.blade_form.slot in
    elim (Bool-cases (any (λ b. same_slot b.blade_slot n) blades)) [
      | inl taken ↦ absurd (ground arith)
      | inr free ↦ (λ c m. any-eq-false (λ b. same_slot b.blade_slot n) c blades free m, distinct)
    ]
