-- ===== src/DeviceEditor/Stored.antt =====
-- The device as the API answers it, against the form that is made of it.
use datacenter_manager.Prelude.{
  String, false, Option, none, some, [], ◌∷◌, ◌++◌, inl, inr, ◌≡◌, ◌≢◌, refl, sym, ap, str_eq,
  eq_iff, Bool-cases,
}
use datacenter_manager.Prelude.Int.{ℤ}
use datacenter_manager.Prelude.Numerals.{show_int, parse_int, parse_int-show_int}
use datacenter_manager.DeviceForm.{DeviceFormSections}
use datacenter_manager.DeviceRecords.{DeviceRead}
use datacenter_manager.DeviceEditor.{form_of, text_of, int_text, size_text, or_else}
use datacenter_manager.DeviceEditor.Body.{
  Body, Value, null, text, number, decimal, or_null, int_or_null, float_or_null, number_or_nan,
  base_entries, rack_entries, power_entries, date_entries, management_entries, snmp_entries,
  ssh_entries, section, to_body,
}

abbrev pub json_text : Option String → Value
json_text none = null
json_text (some s) = text s

abbrev pub json_int : Option ℤ → Value
json_int none = null
json_int (some n) = number n

abbrev pub json_decimal : Option String → Value
json_decimal none = null
json_decimal (some s) = decimal s

-- What the API answered of a device, section by section; the weight, which it answers as a text, stands
-- as the number that the text reads as.
abbrev base_stored : DeviceRead → Body
base_stored d =
    ("name", text d.name)
    ∷ ("device_type", text d.device_type)
    ∷ ("manufacturer", json_text d.manufacturer)
    ∷ ("model", json_text d.model)
    ∷ ("part_number", json_text d.part_number)
    ∷ ("serial_number", json_text d.serial_number)
    ∷ ("asset_tag", json_text d.asset_tag)
    ∷ ("status", text d.status)
    ∷ ("notes", json_text d.notes)
    ∷ []

abbrev rack_stored : DeviceRead → Body
rack_stored d =
    ("rack_id", json_text d.rack_id)
    ∷ ("rack_unit_start", json_int d.rack_unit_start)
    ∷ ("rack_unit_size", json_int d.rack_unit_size)
    ∷ ("face", json_text d.face)
    ∷ []

abbrev power_stored : DeviceRead → Body
power_stored d =
    ("power_rated_w", json_int d.power_rated_w) ∷ ("weight_kg", json_decimal d.weight_kg) ∷ []

abbrev date_stored : DeviceRead → Body
date_stored d =
    ("purchase_date", json_text d.purchase_date)
    ∷ ("warranty_expiry", json_text d.warranty_expiry)
    ∷ ("end_of_support_date", json_text d.end_of_support_date)
    ∷ ("end_of_life_date", json_text d.end_of_life_date)
    ∷ []

abbrev management_stored : DeviceRead → Body
management_stored d =
    ("management_ip", json_text d.management_ip)
    ∷ ("management_protocol", json_text d.management_protocol)
    ∷ []

-- The entry that is no part of the answer.
abbrev erased_community : String × Value
erased_community = ("snmp_community", null)

-- The answer in the sections that a type shows, and an empty community.
unfoldable pub stored : DeviceFormSections → DeviceRead → Body
stored cfg d =
    base_stored d
    ++ (section cfg.show_rack_placement (rack_stored d)
        ++ (section cfg.show_power_physical (power_stored d)
            ++ (section cfg.show_lifecycle_dates (date_stored d)
                ++ (section cfg.show_management_ip (management_stored d)
                    ++ (section cfg.show_snmp
                          (erased_community ∷ ("snmp_version", json_text d.snmp_version) ∷ [])
                        ++ section cfg.show_ssh
                            (("ssh_username", json_text d.ssh_username) ∷ []))))))

-- A device with no empty text, with a height and a face, and without the community, which no answer of
-- the API has.
pub record IsComplete (d : DeviceRead) : Type 0 where
  pub rack_id : d.rack_id ≢ some ""
  pub manufacturer : d.manufacturer ≢ some ""
  pub model : d.model ≢ some ""
  pub part_number : d.part_number ≢ some ""
  pub serial_number : d.serial_number ≢ some ""
  pub asset_tag : d.asset_tag ≢ some ""
  pub face : d.face ≢ some ""
  pub weight_kg : d.weight_kg ≢ some ""
  pub management_ip : d.management_ip ≢ some ""
  pub management_protocol : d.management_protocol ≢ some ""
  pub snmp_community : d.snmp_community ≡ none
  pub snmp_version : d.snmp_version ≢ some ""
  pub ssh_username : d.ssh_username ≢ some ""
  pub purchase_date : d.purchase_date ≢ some ""
  pub warranty_expiry : d.warranty_expiry ≢ some ""
  pub end_of_support_date : d.end_of_support_date ≢ some ""
  pub end_of_life_date : d.end_of_life_date ≢ some ""
  pub notes : d.notes ≢ some ""
  pub has_size : d.rack_unit_size ≢ none
  pub has_face : d.face ≢ none

not_empty : (s : String) → ◌≢◌ {A = Option String} (some s) (some "") → str_eq s "" ≡ false
not_empty s n = elim (Bool-cases (str_eq s "")) [
  | inl empty ↦ absurd (n (ap some ((eq_iff s "").0 empty)))
  | inr full ↦ full
]

pub text_kept : (o : Option String) → o ≢ some "" → json_text o ≡ or_null (text_of o)
text_kept none n = refl
text_kept (some s) n = rw (not_empty s n) refl

pub decimal_kept : (o : Option String) → o ≢ some "" → json_decimal o ≡ float_or_null (text_of o)
decimal_kept none n = refl
decimal_kept (some s) n = rw (not_empty s n) refl

face_kept : (o : Option String) → o ≢ some "" → o ≢ none → json_text o ≡ or_null (or_else "front" o)
face_kept none n h = absurd (h refl)
face_kept (some s) n h = rw (not_empty s n) refl

shown_full : (n : ℤ) → str_eq (show_int n) "" ≡ false
unfolding parse_int
shown_full n = elim (Bool-cases (str_eq (show_int n) "")) [
  | inl empty ↦
      let q : parse_int (show_int n) ≡ none = ap parse_int ((eq_iff (show_int n) "").0 empty) in
      let r = parse_int-show_int n in absurd (cc)
  | inr full ↦ full
]

pub int_kept : (o : Option ℤ) → json_int o ≡ int_or_null (int_text o)
int_kept none = refl
int_kept (some n) = rw (shown_full n) (ap number_or_nan (sym (parse_int-show_int n)))

size_kept : (o : Option ℤ) → o ≢ none → json_int o ≡ int_or_null (size_text o)
size_kept none h = absurd (h refl)
size_kept (some n) h = int_kept (some n)

module _ (d : DeviceRead) (c : IsComplete d) where
  base-kept : base_entries (form_of d) ≡ base_stored d
  unfolding form_of
  base-kept =
      let a = text_kept d.manufacturer c.manufacturer in
      let b = text_kept d.model c.model in
      let e = text_kept d.part_number c.part_number in
      let f = text_kept d.serial_number c.serial_number in
      let g = text_kept d.asset_tag c.asset_tag in let n = text_kept d.notes c.notes in cc

  rack-kept : rack_entries (form_of d) ≡ rack_stored d
  unfolding form_of
  rack-kept =
      let a = text_kept d.rack_id c.rack_id in
      let b = int_kept d.rack_unit_start in
      let e = size_kept d.rack_unit_size c.has_size in
      let f = face_kept d.face c.face c.has_face in cc

  power-kept : power_entries (form_of d) ≡ power_stored d
  unfolding form_of
  power-kept =
      let a = int_kept d.power_rated_w in let b = decimal_kept d.weight_kg c.weight_kg in cc

  date-kept : date_entries (form_of d) ≡ date_stored d
  unfolding form_of
  date-kept =
      let a = text_kept d.purchase_date c.purchase_date in
      let b = text_kept d.warranty_expiry c.warranty_expiry in
      let e = text_kept d.end_of_support_date c.end_of_support_date in
      let f = text_kept d.end_of_life_date c.end_of_life_date in cc

  management-kept : management_entries (form_of d) ≡ management_stored d
  unfolding form_of
  management-kept =
      let a = text_kept d.management_ip c.management_ip in
      let b = text_kept d.management_protocol c.management_protocol in cc

  snmp-kept :
      snmp_entries (form_of d) ≡ erased_community ∷ ("snmp_version", json_text d.snmp_version) ∷ []
  unfolding form_of
  snmp-kept =
      let none_given = c.snmp_community in
      let a = text_kept d.snmp_version c.snmp_version in rw none_given (cc)

  ssh-kept : ssh_entries (form_of d) ≡ ("ssh_username", json_text d.ssh_username) ∷ []
  unfolding form_of
  ssh-kept = let a = text_kept d.ssh_username c.ssh_username in cc

  -- For a complete device, whatever sections its type shows, the body is the answer.
  pub to_body-stored : (cfg : DeviceFormSections) → to_body cfg (form_of d) ≡ stored cfg d
  unfolding to_body stored
  to_body-stored cfg = λ i.
      base-kept i
      ++ (section cfg.show_rack_placement (rack-kept i)
          ++ (section cfg.show_power_physical (power-kept i)
              ++ (section cfg.show_lifecycle_dates (date-kept i)
                  ++ (section cfg.show_management_ip (management-kept i)
                      ++ (section cfg.show_snmp (snmp-kept i)
                          ++ section cfg.show_ssh (ssh-kept i))))))
