-- ===== src/Pages/SanFabrics.antt =====
-- frontend/src/pages/SANFabrics.tsx
use datacenter_manager.Prelude.{String, Option, none, some, [], ◌∷◌, if◌then◌else◌}
use datacenter_manager.Prelude.Int.{ℤ}
use datacenter_manager.Prelude.Numerals.{is_blank}
use datacenter_manager.DeviceEditor.{text_of, int_text}
use datacenter_manager.DeviceEditor.Body.{Body, Value, or_null, int_or_null}
use datacenter_manager.Api.Network.{
  use_create_san_fabric, use_update_san_fabric, use_delete_san_fabric,
}
use datacenter_manager.Pages.{Page}

pub record SanFabricRead : Type 0 where
  pub id : String
  pub name : String
  pub fabric_type : String
  pub speed_gbps : Option ℤ
  pub wwn : Option String

pub record SanFabricForm : Type 0 where
  pub name : String
  pub fabric_type : String
  pub speed_gbps : String
  pub wwn : String

abbrev pub body : SanFabricForm → Body
body f =
    ("name", Value.text f.name)
    ∷ ("fabric_type", Value.text f.fabric_type)
    ∷ ("speed_gbps", int_or_null f.speed_gbps)
    ∷ ("wwn", or_null f.wwn)
    ∷ []

abbrev pub san_fabrics : Page SanFabricRead SanFabricForm
san_fabrics = record {
  row_id = λ s. s.id;
  empty_form = record { name = ""; fabric_type = "fc"; speed_gbps = ""; wwn = "" };
  form_of = λ s. record {
    name = s.name;
    fabric_type = s.fabric_type;
    speed_gbps = int_text s.speed_gbps;
    wwn = text_of s.wwn;
  };
  check = λ f. if is_blank f.name then some "Name is required." else none;
  create_with = λ f. use_create_san_fabric (body f);
  update_with = λ id f. use_update_san_fabric id (body f);
  remove_with = use_delete_san_fabric;
}
