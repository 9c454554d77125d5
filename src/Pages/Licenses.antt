-- ===== src/Pages/Licenses.antt =====
-- frontend/src/pages/Licenses.tsx. Days until a date are counted by the browser's clock, and the badge
-- that shows them is left out.
use datacenter_manager.Prelude.{
  String, Option, none, some, [], ◌∷◌, ◌++◌, ◌&&◌, not, str_eq, if◌then◌else◌,
}
use datacenter_manager.Prelude.Int.{ℤ, pos}
use datacenter_manager.Prelude.Numerals.{show_int, is_blank}
use datacenter_manager.DeviceEditor.{text_of, int_text}
use datacenter_manager.DeviceEditor.Body.{Body, Value, or_null, int_or_null, float_or_null}
use datacenter_manager.Api.Services.{use_create_license, use_update_license, use_delete_license}
use datacenter_manager.Pages.{Page}
use datacenter_manager.Pages.Racks.{int_or}

pub record LicenseRead : Type 0 where
  pub id : String
  pub device_id : Option String
  pub product_name : String
  pub vendor : Option String
  pub license_type : String
  pub quantity : Option ℤ
  pub purchase_date : Option String
  pub expiry_date : Option String
  pub cost_usd : Option String
  pub renewal_reminder_days : ℤ
  pub notes : Option String

pub record LicenseForm : Type 0 where
  pub device_id : String
  pub product_name : String
  pub vendor : String
  pub license_type : String
  pub quantity : String
  pub purchase_date : String
  pub expiry_date : String
  pub cost_usd : String
  pub renewal_reminder_days : String
  pub license_key : String
  pub notes : String

-- `license_key: f.license_key || undefined`
abbrev key_entry : String → Body
key_entry s = if str_eq s "" then [] else ("license_key", Value.text s) ∷ []

abbrev pub to_body : LicenseForm → Body
to_body f =
    ("device_id", or_null f.device_id)
    ∷ ("product_name", Value.text f.product_name)
    ∷ ("vendor", or_null f.vendor)
    ∷ ("license_type", Value.text f.license_type)
    ∷ ("quantity", int_or_null f.quantity)
    ∷ ("purchase_date", or_null f.purchase_date)
    ∷ ("expiry_date", or_null f.expiry_date)
    ∷ ("cost_usd", float_or_null f.cost_usd)
    ∷ ("renewal_reminder_days", int_or (pos 90) f.renewal_reminder_days)
    ∷ (key_entry f.license_key ++ ("notes", or_null f.notes) ∷ [])

abbrev pub licenses : Page LicenseRead LicenseForm
licenses = record {
  row_id = λ l. l.id;
  empty_form = record {
    device_id = "";
    product_name = "";
    vendor = "";
    license_type = "subscription";
    quantity = "";
    purchase_date = "";
    expiry_date = "";
    cost_usd = "";
    renewal_reminder_days = "90";
    license_key = "";
    notes = "";
  };
  form_of = λ l. record {
    device_id = text_of l.device_id;
    product_name = l.product_name;
    vendor = text_of l.vendor;
    license_type = l.license_type;
    quantity = int_text l.quantity;
    purchase_date = text_of l.purchase_date;
    expiry_date = text_of l.expiry_date;
    cost_usd = text_of l.cost_usd;
    renewal_reminder_days = show_int l.renewal_reminder_days;
    license_key = "";
    notes = text_of l.notes;
  };
  check = λ f.
      if is_blank f.product_name
      then some "Product name is required."
      else if not (str_eq f.license_type "perpetual") && str_eq f.expiry_date ""
      then some "Expiry date is required for non-perpetual licenses."
      else none;
  create_with = λ f. use_create_license (to_body f);
  update_with = λ id f. use_update_license id (to_body f);
  remove_with = use_delete_license;
}
