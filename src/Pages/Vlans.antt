-- ===== src/Pages/Vlans.antt =====
-- frontend/src/pages/VLANs.tsx
use datacenter_manager.Prelude.{
  String, Bool, false, Option, none, some, [], ◌∷◌, ◌||◌, str_eq, if◌then◌else◌,
}
use datacenter_manager.Prelude.Int.{ℤ, pos, ltb_ℤ}
use datacenter_manager.Prelude.Numerals.{parse_int, show_int, is_blank}
use datacenter_manager.DeviceEditor.{text_of}
use datacenter_manager.DeviceEditor.Body.{Body, Value, or_null, number_or_nan}
use datacenter_manager.Api.Network.{use_create_vlan, use_update_vlan, use_delete_vlan}
use datacenter_manager.Pages.{Page}

pub record VlanRead : Type 0 where
  pub id : String
  pub vlan_id : ℤ
  pub name : String
  pub description : Option String
  pub color : Option String

pub record VlanForm : Type 0 where
  pub vlan_id : String
  pub name : String
  pub description : String
  pub color : String

-- Comparisons with NaN are false.
abbrev out_of_range : Option ℤ → Bool
out_of_range none = false
out_of_range (some id) = ltb_ℤ id (pos 1) || ltb_ℤ (pos 4094) id

abbrev check : VlanForm → Option String
check f =
    if str_eq f.vlan_id "" || is_blank f.name
    then some "VLAN ID and name are required."
    else if out_of_range (parse_int f.vlan_id)
    then some "VLAN ID must be between 1 and 4094."
    else none

abbrev update_body : VlanForm → Body
update_body f =
    ("name", Value.text f.name)
    ∷ ("description", or_null f.description)
    ∷ ("color", or_null f.color)
    ∷ []

abbrev pub vlans : Page VlanRead VlanForm
vlans = record {
  row_id = λ v. v.id;
  empty_form = record { vlan_id = ""; name = ""; description = ""; color = "" };
  form_of = λ v. record {
    vlan_id = show_int v.vlan_id;
    name = v.name;
    description = text_of v.description;
    color = text_of v.color;
  };
  check = check;
  create_with =
      λ f. use_create_vlan (("vlan_id", number_or_nan (parse_int f.vlan_id)) ∷ update_body f);
  update_with = λ id f. use_update_vlan id (update_body f);
  remove_with = use_delete_vlan;
}
