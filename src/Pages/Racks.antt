-- ===== src/Pages/Racks.antt =====
-- frontend/src/pages/Racks.tsx
use datacenter_manager.Prelude.{
  String, Bool, true, Option, none, some, [], ◌∷◌, ◌||◌, str_eq, if◌then◌else◌,
}
use datacenter_manager.Prelude.Int.{ℤ, pos, ltb_ℤ, eqb_ℤ}
use datacenter_manager.Prelude.Numerals.{parse_int, show_int, is_blank}
use datacenter_manager.DeviceEditor.{text_of, int_text}
use datacenter_manager.DeviceEditor.Body.{Body, Value, or_null, int_or_null, float_or_null}
use datacenter_manager.InfraRecords.{RackRead}
use datacenter_manager.Api.Physical.{use_create_rack, use_update_rack, use_delete_rack}
use datacenter_manager.Pages.{Page}

pub record RackForm : Type 0 where
  pub corridor_id : String
  pub name : String
  pub row : String
  pub column : String
  pub total_u : String
  pub max_power_w : String
  pub max_weight_kg : String
  pub airflow_direction : String
  pub power_feed_count : String
  pub manufacturer : String
  pub model : String
  pub serial_number : String
  pub status : String
  pub notes : String

-- `parseInt(s) || default`, where NaN and 0 are false
abbrev nonzero_or : ℤ → Option ℤ → ℤ
nonzero_or default none = default
nonzero_or default (some n) = if eqb_ℤ n (pos 0) then default else n

abbrev pub int_or : ℤ → String → Value
int_or default s = Value.number (nonzero_or default (parse_int s))

abbrev pub to_body : RackForm → Body
to_body f =
    ("corridor_id", Value.text f.corridor_id)
    ∷ ("name", Value.text f.name)
    ∷ ("row", or_null f.row)
    ∷ ("column", or_null f.column)
    ∷ ("total_u", int_or (pos 42) f.total_u)
    ∷ ("max_power_w", int_or_null f.max_power_w)
    ∷ ("max_weight_kg", float_or_null f.max_weight_kg)
    ∷ ("airflow_direction", or_null f.airflow_direction)
    ∷ ("power_feed_count", int_or (pos 2) f.power_feed_count)
    ∷ ("manufacturer", or_null f.manufacturer)
    ∷ ("model", or_null f.model)
    ∷ ("serial_number", or_null f.serial_number)
    ∷ ("status", Value.text f.status)
    ∷ ("notes", or_null f.notes)
    ∷ []

-- `isNaN(n) || n < 1 || n > most`
abbrev pub outside : ℤ → Option ℤ → Bool
outside most none = true
outside most (some n) = ltb_ℤ n (pos 1) || ltb_ℤ most n

unfoldable pub check : RackForm → Option String
check f =
    if is_blank f.name
    then some "Name is required."
    else if str_eq f.corridor_id ""
    then some "Corridor is required."
    else if str_eq f.total_u "" || outside (pos 100) (parse_int f.total_u)
    then some "Total U must be between 1 and 100."
    else if str_eq f.power_feed_count "" || outside (pos 8) (parse_int f.power_feed_count)
    then some "Power feed count must be between 1 and 8."
    else none

-- The page is asked for with the corridor that its URL names, or with none.
abbrev pub empty_form : String → RackForm
empty_form corridor_id = record {
  corridor_id = corridor_id;
  name = "";
  row = "";
  column = "";
  total_u = "42";
  max_power_w = "";
  max_weight_kg = "";
  airflow_direction = "";
  power_feed_count = "2";
  manufacturer = "";
  model = "";
  serial_number = "";
  status = "active";
  notes = "";
}

abbrev pub form_of : RackRead → RackForm
form_of r = record {
  corridor_id = r.corridor_id;
  name = r.name;
  row = text_of r.row;
  column = text_of r.column;
  total_u = show_int r.total_u;
  max_power_w = int_text r.max_power_w;
  max_weight_kg = text_of r.max_weight_kg;
  airflow_direction = text_of r.airflow_direction;
  power_feed_count = show_int r.power_feed_count;
  manufacturer = text_of r.manufacturer;
  model = text_of r.model;
  serial_number = text_of r.serial_number;
  status = r.status;
  notes = text_of r.notes;
}

abbrev pub racks : Option String → Page RackRead RackForm
racks corridor_filter = record {
  row_id = λ r. r.id;
  empty_form = empty_form (text_of corridor_filter);
  form_of = form_of;
  check = check;
  create_with = λ f. use_create_rack (to_body f);
  update_with = λ id f. use_update_rack id (to_body f);
  remove_with = use_delete_rack;
}
