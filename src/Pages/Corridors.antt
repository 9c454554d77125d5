-- ===== src/Pages/Corridors.antt =====
-- frontend/src/pages/Corridors.tsx
use datacenter_manager.Prelude.{String, Option, none, some, [], ◌∷◌, str_eq, if◌then◌else◌}
use datacenter_manager.Prelude.Int.{ℤ}
use datacenter_manager.Prelude.Numerals.{is_blank}
use datacenter_manager.DeviceEditor.{text_of, int_text}
use datacenter_manager.DeviceEditor.Body.{Body, Value, or_null, int_or_null}
use datacenter_manager.Api.Physical.{use_create_corridor, use_update_corridor, use_delete_corridor}
use datacenter_manager.Pages.{Page}

pub record CorridorRead : Type 0 where
  pub id : String
  pub room_id : String
  pub name : String
  pub position : Option ℤ
  pub notes : Option String

pub record CorridorForm : Type 0 where
  pub room_id : String
  pub name : String
  pub position : String
  pub notes : String

abbrev pub to_body : CorridorForm → Body
to_body f =
    ("room_id", Value.text f.room_id)
    ∷ ("name", Value.text f.name)
    ∷ ("position", int_or_null f.position)
    ∷ ("notes", or_null f.notes)
    ∷ []

abbrev pub form_of : CorridorRead → CorridorForm
form_of c = record {
  room_id = c.room_id;
  name = c.name;
  position = int_text c.position;
  notes = text_of c.notes;
}

abbrev pub corridors : Option String → Page CorridorRead CorridorForm
corridors room_filter = record {
  row_id = λ c. c.id;
  empty_form = record { room_id = text_of room_filter; name = ""; position = ""; notes = "" };
  form_of = form_of;
  check = λ f.
      if is_blank f.name
      then some "Name is required."
      else if str_eq f.room_id ""
      then some "Room is required."
      else none;
  create_with = λ f. use_create_corridor (to_body f);
  update_with = λ id f. use_update_corridor id (to_body f);
  remove_with = use_delete_corridor;
}
