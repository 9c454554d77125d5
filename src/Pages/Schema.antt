-- ===== src/Pages/Schema.antt =====
-- backend/app/schemas/rack.py, RackBase, which the server checks the body of a new rack against, and
-- the checks of the page of racks. What the validator takes for a UUID and for a positive decimal are
-- parameters.
use Prim.Native.String.{count}
use datacenter_manager.Prelude.{
  ℕ, leb, String, Bool, true, false, not, Option, none, some, List, [], ◌∷◌, ◌&&◌, ◌≡◌, inl, inr,
  refl, ap, str_eq, eq_iff, any, lookup, if◌then◌else◌, Bool-cases, Option-cases, arith,
}
use datacenter_manager.Prelude.Int.{ℤ, pos, ltb_ℤ, eqb_ℤ}
use datacenter_manager.Prelude.Numerals.{parse_int, is_blank}
use datacenter_manager.DeviceEditor.Body.{
  Body, Value, null, text, number, decimal, or_null, int_or_null, float_or_null,
}
use datacenter_manager.Pages.Racks.{RackForm, to_body, check, outside, int_or}

-- What a field is declared as: `Field(min_length=1, max_length=…)`, `Field(ge=…, le=…)`, and so on.
pub data FieldType : Type 0 where
  uuid optional_text optional_positive optional_positive_decimal : FieldType
  filled_text : ℕ → FieldType
  between : ℤ → ℤ → FieldType
  one_of optional_one_of : List String → FieldType

module _ (is_uuid is_positive : String → Bool) where
  abbrev is_one_of : List String → String → Bool
  is_one_of options s = any (str_eq s) options

  abbrev pub fits : FieldType → Value → Bool
  fits uuid (text s) = is_uuid s
  fits (filled_text most) (text s) = not (str_eq s "") && leb (count s) most
  fits optional_text null = true
  fits optional_text (text s) = true
  fits optional_positive null = true
  fits optional_positive (number n) = ltb_ℤ (pos 0) n
  fits optional_positive_decimal null = true
  fits optional_positive_decimal (decimal s) = is_positive s
  fits (between a b) (number n) = not (ltb_ℤ n a) && not (ltb_ℤ b n)
  fits (one_of options) (text s) = is_one_of options s
  fits (optional_one_of options) null = true
  fits (optional_one_of options) (text s) = is_one_of options s
  fits _ _ = false

  abbrev fits? : FieldType → Option Value → Bool
  fits? t none = false
  fits? t (some v) = fits t v

  -- Every field that is sent fits. A page that sends all fields has none of them left to its default.
  unfoldable pub conforms : List (String × FieldType) → Body → Bool
  conforms [] b = true
  conforms ((k, t) ∷ fields) b = fits? t (lookup k b) && conforms fields b

abbrev airflow_direction : List String
airflow_direction = "front_to_back" ∷ "back_to_front" ∷ "top_exhaust" ∷ []

abbrev rack_status : List String
rack_status = "active" ∷ "reserved" ∷ "decommissioned" ∷ []

abbrev pub rack_base : List (String × FieldType)
rack_base =
    ("corridor_id", uuid)
    ∷ ("name", filled_text 200)
    ∷ ("row", optional_text)
    ∷ ("column", optional_text)
    ∷ ("total_u", between (pos 1) (pos 100))
    ∷ ("max_power_w", optional_positive)
    ∷ ("max_weight_kg", optional_positive_decimal)
    ∷ ("airflow_direction", optional_one_of airflow_direction)
    ∷ ("power_feed_count", between (pos 1) (pos 8))
    ∷ ("manufacturer", optional_text)
    ∷ ("model", optional_text)
    ∷ ("serial_number", optional_text)
    ∷ ("status", one_of rack_status)
    ∷ ("notes", optional_text)
    ∷ []

filled : (s : String) → is_blank s ≡ false → not (str_eq s "") ≡ true
unfolding is_blank
filled s h = elim (Bool-cases (str_eq s "")) [
  | inl empty ↦
      let e : is_blank s ≡ is_blank "" = ap is_blank ((eq_iff s "").0 empty) in absurd (cc)
  | inr full ↦ rw full refl
]

passed :
    (f : RackForm)
    → check f ≡ none
    → (is_blank f.name ≡ false)
      × (outside (pos 100) (parse_int f.total_u) ≡ false)
      × (outside (pos 8) (parse_int f.power_feed_count) ≡ false)
unfolding check
passed f h = ground arith

-- Where the nine fields fit that the checks, or the form itself, see to.
all_fit :
    {n r c t k m o s e : Bool} (u l p w a x : Bool)
    → n ≡ true
    → r ≡ true
    → c ≡ true
    → t ≡ true
    → k ≡ true
    → m ≡ true
    → o ≡ true
    → s ≡ true
    → e ≡ true
    → (u
        && ((n && l)
            && (r
                && (c
                    && (t
                        && (p && (w && (a && (k && (m && (o && (s && (x && (e && true))))))))))))))
      ≡ (u && (l && (p && (w && (a && x)))))
all_fit u l p w a x hn hr hc ht hk hm ho hs he = ground arith

module _ (is_uuid is_positive : String → Bool) where
  within_value :
      (most n d : ℤ)
      → outside most (some n) ≡ false
      → fits is_uuid is_positive (between (pos 1) most) (number (if eqb_ℤ n (pos 0) then d else n))
        ≡ true
  within_value most n d h = ground arith

  within :
      (most d : ℤ) (s : String)
      → outside most (parse_int s) ≡ false
      → fits is_uuid is_positive (between (pos 1) most) (int_or d s) ≡ true
  within most d s h = elim (Option-cases (parse_int s)) [
    | inl e ↦ let never = rw e at h in absurd (cc)
    | inr (n, e) ↦ rw e (within_value most n d (rw e at h))
  ]

  texts : (s : String) → fits is_uuid is_positive optional_text (or_null s) ≡ true
  texts s = elim (Bool-cases (str_eq s "")) [ inl e ↦ rw e refl | inr e ↦ rw e refl ]

  -- What the server can still refuse in a form that the page's checks let pass.
  abbrev pub unchecked : RackForm → Bool
  unchecked f =
      is_uuid f.corridor_id
      && (leb (count f.name) 200
          && (fits is_uuid is_positive optional_positive (int_or_null f.max_power_w)
              && (fits is_uuid is_positive optional_positive_decimal (float_or_null f.max_weight_kg)
                  && (fits is_uuid is_positive (optional_one_of airflow_direction)
                        (or_null f.airflow_direction)
                      && fits is_uuid is_positive (one_of rack_status) (text f.status)))))

  -- A form without a message makes a body that fits what the server wants exactly if the corridor is a
  -- UUID, the name has at most 200 characters, the power and the weight are absent or positive, and the
  -- direction and status are known.
  pub check-conforms :
      (f : RackForm)
      → check f ≡ none
      → conforms is_uuid is_positive rack_base (to_body f) ≡ unchecked f
  unfolding conforms lookup
  check-conforms f h =
      let (name, total, feeds) = passed f h in
      let allowed = fits is_uuid is_positive in
      all_fit (is_uuid f.corridor_id) (leb (count f.name) 200)
        (allowed optional_positive (int_or_null f.max_power_w))
        (allowed optional_positive_decimal (float_or_null f.max_weight_kg))
        (allowed (optional_one_of airflow_direction) (or_null f.airflow_direction))
        (allowed (one_of rack_status) (text f.status)) (filled f.name name) (texts f.row)
        (texts f.column) (within (pos 100) (pos 42) f.total_u total)
        (within (pos 8) (pos 2) f.power_feed_count feeds) (texts f.manufacturer) (texts f.model)
        (texts f.serial_number) (texts f.notes)
