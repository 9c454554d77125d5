-- ===== src/Pages/DataCenters.antt =====
-- frontend/src/pages/DataCenters.tsx
use datacenter_manager.Prelude.{String, none, some, [], ◌∷◌, if◌then◌else◌}
use datacenter_manager.Prelude.Numerals.{is_blank}
use datacenter_manager.DeviceEditor.{text_of}
use datacenter_manager.DeviceEditor.Body.{Body, Value, or_null, float_or_null}
use datacenter_manager.InfraRecords.{DataCenterRead}
use datacenter_manager.Api.Physical.{
  use_create_data_center, use_update_data_center, use_delete_data_center,
}
use datacenter_manager.Pages.{Page}

pub record DataCenterForm : Type 0 where
  pub name : String
  pub address : String
  pub city : String
  pub country : String
  pub total_power_kw : String
  pub total_cooling_kw : String
  pub pue : String
  pub notes : String

abbrev pub to_body : DataCenterForm → Body
to_body f =
    ("name", Value.text f.name)
    ∷ ("address", or_null f.address)
    ∷ ("city", or_null f.city)
    ∷ ("country", or_null f.country)
    ∷ ("total_power_kw", float_or_null f.total_power_kw)
    ∷ ("total_cooling_kw", float_or_null f.total_cooling_kw)
    ∷ ("pue", float_or_null f.pue)
    ∷ ("notes", or_null f.notes)
    ∷ []

abbrev pub form_of : DataCenterRead → DataCenterForm
form_of dc = record {
  name = dc.name;
  address = text_of dc.address;
  city = text_of dc.city;
  country = text_of dc.country;
  total_power_kw = text_of dc.total_power_kw;
  total_cooling_kw = text_of dc.total_cooling_kw;
  pue = text_of dc.pue;
  notes = text_of dc.notes;
}

abbrev pub data_centers : Page DataCenterRead DataCenterForm
data_centers = record {
  row_id = λ dc. dc.id;
  empty_form = record {
    name = "";
    address = "";
    city = "";
    country = "";
    total_power_kw = "";
    total_cooling_kw = "";
    pue = "";
    notes = "";
  };
  form_of = form_of;
  check = λ f. if is_blank f.name then some "Name is required." else none;
  create_with = λ f. use_create_data_center (to_body f);
  update_with = λ id f. use_update_data_center id (to_body f);
  remove_with = use_delete_data_center;
}
