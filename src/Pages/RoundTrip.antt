-- ===== src/Pages/RoundTrip.antt =====
-- What an unchanged edit sends, against the row that the API answered.
use datacenter_manager.Prelude.{some, [], ◌∷◌, ◌≡◌, ◌≢◌, refl, Bool-cases, inl, inr}
use datacenter_manager.Prelude.Int.{ℤ, pos, eqb_ℤ, eqb_ℤ_iff}
use datacenter_manager.Prelude.Numerals.{show_int, parse_int-show_int}
use datacenter_manager.InfraRecords.{RackRead, RoomRead}
use datacenter_manager.DeviceEditor.Body.{Body, Value}
use datacenter_manager.DeviceEditor.Stored.{
  json_text, json_int, json_decimal, text_kept, int_kept, decimal_kept,
}
use datacenter_manager.Pages.Racks as Racks
use datacenter_manager.Pages.Rooms as Rooms

-- A rack as the API answers it; the weight, which it answers as a text, as the number that it reads as.
abbrev pub rack_stored : RackRead → Body
rack_stored r =
    ("corridor_id", Value.text r.corridor_id)
    ∷ ("name", Value.text r.name)
    ∷ ("row", json_text r.row)
    ∷ ("column", json_text r.column)
    ∷ ("total_u", Value.number r.total_u)
    ∷ ("max_power_w", json_int r.max_power_w)
    ∷ ("max_weight_kg", json_decimal r.max_weight_kg)
    ∷ ("airflow_direction", json_text r.airflow_direction)
    ∷ ("power_feed_count", Value.number r.power_feed_count)
    ∷ ("manufacturer", json_text r.manufacturer)
    ∷ ("model", json_text r.model)
    ∷ ("serial_number", json_text r.serial_number)
    ∷ ("status", Value.text r.status)
    ∷ ("notes", json_text r.notes)
    ∷ []

-- A rack with no empty text and no zero where the form has a default.
pub record IsFull (r : RackRead) : Type 0 where
  pub row : r.row ≢ some ""
  pub column : r.column ≢ some ""
  pub total_u : r.total_u ≢ pos 0
  pub max_weight_kg : r.max_weight_kg ≢ some ""
  pub airflow_direction : r.airflow_direction ≢ some ""
  pub power_feed_count : r.power_feed_count ≢ pos 0
  pub manufacturer : r.manufacturer ≢ some ""
  pub model : r.model ≢ some ""
  pub serial_number : r.serial_number ≢ some ""
  pub notes : r.notes ≢ some ""

int_or_kept : (d n : ℤ) → n ≢ pos 0 → Racks.int_or d (show_int n) ≡ Value.number n
int_or_kept d n h = elim (Bool-cases (eqb_ℤ n (pos 0))) [
  | inl zero ↦ absurd (h ((eqb_ℤ_iff n (pos 0)).0 zero))
  | inr other ↦ rw (parse_int-show_int n, other) refl
]

-- Opening a full rack and saving it unchanged sends back what the API answered, entry for entry.
pub rack-to_body-form_of :
    (r : RackRead) → IsFull r → Racks.to_body (Racks.form_of r) ≡ rack_stored r
rack-to_body-form_of r c =
    let a = text_kept r.row c.row in
    let b = text_kept r.column c.column in
    let t = int_or_kept (pos 42) r.total_u c.total_u in
    let w = int_kept r.max_power_w in
    let k = decimal_kept r.max_weight_kg c.max_weight_kg in
    let f = text_kept r.airflow_direction c.airflow_direction in
    let n = int_or_kept (pos 2) r.power_feed_count c.power_feed_count in
    let m = text_kept r.manufacturer c.manufacturer in
    let o = text_kept r.model c.model in
    let s = text_kept r.serial_number c.serial_number in let e = text_kept r.notes c.notes in cc

-- The same for a room.
abbrev pub room_stored : RoomRead → Body
room_stored r =
    ("datacenter_id", Value.text r.datacenter_id)
    ∷ ("name", Value.text r.name)
    ∷ ("floor", json_int r.floor)
    ∷ ("cooling_type", json_text r.cooling_type)
    ∷ ("raised_floor", Value.bool r.raised_floor)
    ∷ ("width_m", json_decimal r.width_m)
    ∷ ("depth_m", json_decimal r.depth_m)
    ∷ ("height_m", json_decimal r.height_m)
    ∷ ("max_power_kw", json_decimal r.max_power_kw)
    ∷ ("notes", json_text r.notes)
    ∷ []

pub room-to_body-form_of :
    (r : RoomRead)
    → r.cooling_type ≢ some ""
    → r.width_m ≢ some ""
    → r.depth_m ≢ some ""
    → r.height_m ≢ some ""
    → r.max_power_kw ≢ some ""
    → r.notes ≢ some ""
    → Rooms.to_body (Rooms.form_of r) ≡ room_stored r
room-to_body-form_of r c w d h p n =
    let a = text_kept r.cooling_type c in
    let f = int_kept r.floor in
    let b = decimal_kept r.width_m w in
    let e = decimal_kept r.depth_m d in
    let g = decimal_kept r.height_m h in
    let k = decimal_kept r.max_power_kw p in let m = text_kept r.notes n in cc
