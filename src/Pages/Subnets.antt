-- ===== src/Pages/Subnets.antt =====
-- frontend/src/pages/IPSpace.tsx: the dialog of subnets. The addresses of the subnet that is
-- unfolded, and the dialog that adds one, are left out.
use datacenter_manager.Prelude.{
  String, Bool, false, Option, none, some, List, [], ◌∷◌, ◌||◌, str_eq, if◌then◌else◌,
}
use datacenter_manager.DeviceEditor.{text_of}
use datacenter_manager.DeviceEditor.Body.{Body, Value, or_null}
use datacenter_manager.Api.Network.{
  use_create_ip_network, use_update_ip_network, use_delete_ip_network,
}
use datacenter_manager.Pages.{Page}

pub record IpNetworkRead : Type 0 where
  pub id : String
  pub cidr : String
  pub name : String
  pub gateway : Option String
  pub vlan_id : Option String
  pub purpose : Option String
  pub dhcp_enabled : Bool
  pub dhcp_range_start : Option String
  pub dhcp_range_end : Option String
  pub dns_servers : Option (List String)
  pub notes : Option String

pub record SubnetForm : Type 0 where
  pub cidr : String
  pub name : String
  pub gateway : String
  pub vlan_id : String
  pub purpose : String
  pub dhcp_enabled : Bool
  pub notes : String

abbrev body : SubnetForm → Body
body f =
    ("cidr", Value.text f.cidr)
    ∷ ("name", Value.text f.name)
    ∷ ("gateway", or_null f.gateway)
    ∷ ("vlan_id", or_null f.vlan_id)
    ∷ ("purpose", or_null f.purpose)
    ∷ ("dhcp_enabled", Value.bool f.dhcp_enabled)
    ∷ ("notes", or_null f.notes)
    ∷ []

abbrev pub subnets : Page IpNetworkRead SubnetForm
subnets = record {
  row_id = λ s. s.id;
  empty_form = record {
    cidr = "";
    name = "";
    gateway = "";
    vlan_id = "";
    purpose = "";
    dhcp_enabled = false;
    notes = "";
  };
  form_of = λ s. record {
    cidr = s.cidr;
    name = s.name;
    gateway = text_of s.gateway;
    vlan_id = text_of s.vlan_id;
    purpose = text_of s.purpose;
    dhcp_enabled = s.dhcp_enabled;
    notes = text_of s.notes;
  };
  check = λ f.
      if str_eq f.cidr "" || str_eq f.name "" then some "CIDR and name are required." else none;
  create_with = λ f. use_create_ip_network (body f);
  update_with = λ id f. use_update_ip_network id (body f);
  remove_with = use_delete_ip_network;
}
