-- ===== src/Pages/Rooms.antt =====
-- frontend/src/pages/Rooms.tsx. Whether `parseFloat(s) <= 0` is the parameter `not_positive`.
use datacenter_manager.Prelude.{
  String, Bool, false, Option, none, some, [], ◌∷◌, ◌&&◌, not, str_eq, if◌then◌else◌,
}
use datacenter_manager.Prelude.Numerals.{is_blank}
use datacenter_manager.DeviceEditor.{text_of, int_text}
use datacenter_manager.DeviceEditor.Body.{Body, Value, or_null, int_or_null, float_or_null}
use datacenter_manager.InfraRecords.{RoomRead}
use datacenter_manager.Api.Physical.{use_create_room, use_update_room, use_delete_room}
use datacenter_manager.Pages.{Page}

pub record RoomForm : Type 0 where
  pub datacenter_id : String
  pub name : String
  pub floor : String
  pub cooling_type : String
  pub raised_floor : Bool
  pub width_m : String
  pub depth_m : String
  pub height_m : String
  pub max_power_kw : String
  pub notes : String

abbrev pub to_body : RoomForm → Body
to_body f =
    ("datacenter_id", Value.text f.datacenter_id)
    ∷ ("name", Value.text f.name)
    ∷ ("floor", int_or_null f.floor)
    ∷ ("cooling_type", or_null f.cooling_type)
    ∷ ("raised_floor", Value.bool f.raised_floor)
    ∷ ("width_m", float_or_null f.width_m)
    ∷ ("depth_m", float_or_null f.depth_m)
    ∷ ("height_m", float_or_null f.height_m)
    ∷ ("max_power_kw", float_or_null f.max_power_kw)
    ∷ ("notes", or_null f.notes)
    ∷ []

module _ (not_positive : String → Bool) where
  abbrev bad_size : String → Bool
  bad_size s = not (str_eq s "") && not_positive s

  abbrev check : RoomForm → Option String
  check f =
      if is_blank f.name
      then some "Name is required."
      else if str_eq f.datacenter_id ""
      then some "Data center is required."
      else if bad_size f.width_m
      then some "Width must be greater than 0."
      else if bad_size f.depth_m
      then some "Depth must be greater than 0."
      else if bad_size f.height_m
      then some "Height must be greater than 0."
      else if bad_size f.max_power_kw
      then some "Max power must be greater than 0."
      else none

abbrev empty_form : String → RoomForm
empty_form datacenter_id = record {
  datacenter_id = datacenter_id;
  name = "";
  floor = "";
  cooling_type = "";
  raised_floor = false;
  width_m = "";
  depth_m = "";
  height_m = "";
  max_power_kw = "";
  notes = "";
}

abbrev pub form_of : RoomRead → RoomForm
form_of r = record {
  datacenter_id = r.datacenter_id;
  name = r.name;
  floor = int_text r.floor;
  cooling_type = text_of r.cooling_type;
  raised_floor = r.raised_floor;
  width_m = text_of r.width_m;
  depth_m = text_of r.depth_m;
  height_m = text_of r.height_m;
  max_power_kw = text_of r.max_power_kw;
  notes = text_of r.notes;
}

abbrev pub rooms : (String → Bool) → Option String → Page RoomRead RoomForm
rooms not_positive dc_filter = record {
  row_id = λ r. r.id;
  empty_form = empty_form (text_of dc_filter);
  form_of = form_of;
  check = check not_positive;
  create_with = λ f. use_create_room (to_body f);
  update_with = λ id f. use_update_room id (to_body f);
  remove_with = use_delete_room;
}
