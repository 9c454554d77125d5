-- ===== src/DeviceForm.antt =====
-- frontend/src/lib/deviceFormConfig.ts: which sections of the device form a device type shows.
-- A key that JavaScript objects inherit (`constructor`, `toString`) is taken for an unknown type.
pub mod Coherence
mod Tests
use datacenter_manager.Prelude.{
  String, Bool, true, false, Option, none, some, List, [], ◌∷◌, lookup,
}

pub data DeviceType : Type 0 where
  server switch router firewall storage pdu patch_panel kvm load_balancer cable_manager
        blade_chassis blade other :
      DeviceType

pub record DeviceFormSections : Type 0 where
  pub show_rack_placement : Bool
  pub show_power_physical : Bool
  pub show_lifecycle_dates : Bool
  pub show_management_ip : Bool
  pub show_snmp : Bool
  pub show_ssh : Bool
  pub show_server_extension : Bool
  pub show_blade_extension : Bool
  pub show_network_extension : Bool
  pub show_spanning_tree : Bool
  pub show_stacking : Bool
  pub show_pdu_extension : Bool
  pub rack_placement_required : Bool

-- `DEVICE_FORM_CONFIG`, a row for each type.
unfoldable pub device_form_config : DeviceType → DeviceFormSections
device_form_config server = record {
  show_rack_placement = true;
  show_power_physical = true;
  show_lifecycle_dates = true;
  show_management_ip = true;
  show_snmp = false;
  show_ssh = true;
  show_server_extension = true;
  show_blade_extension = false;
  show_network_extension = false;
  show_spanning_tree = false;
  show_stacking = false;
  show_pdu_extension = false;
  rack_placement_required = true;
}
device_form_config blade_chassis = record {
  show_rack_placement = true;
  show_power_physical = true;
  show_lifecycle_dates = true;
  show_management_ip = true;
  show_snmp = false;
  show_ssh = true;
  show_server_extension = true;
  show_blade_extension = false;
  show_network_extension = false;
  show_spanning_tree = false;
  show_stacking = false;
  show_pdu_extension = false;
  rack_placement_required = true;
}
device_form_config blade = record {
  show_rack_placement = false;
  show_power_physical = false;
  show_lifecycle_dates = false;
  show_management_ip = true;
  show_snmp = false;
  show_ssh = true;
  show_server_extension = true;
  show_blade_extension = true;
  show_network_extension = false;
  show_spanning_tree = false;
  show_stacking = false;
  show_pdu_extension = false;
  rack_placement_required = false;
}
device_form_config switch = record {
  show_rack_placement = true;
  show_power_physical = true;
  show_lifecycle_dates = true;
  show_management_ip = true;
  show_snmp = true;
  show_ssh = true;
  show_server_extension = false;
  show_blade_extension = false;
  show_network_extension = true;
  show_spanning_tree = true;
  show_stacking = true;
  show_pdu_extension = false;
  rack_placement_required = true;
}
device_form_config router = record {
  show_rack_placement = true;
  show_power_physical = true;
  show_lifecycle_dates = true;
  show_management_ip = true;
  show_snmp = true;
  show_ssh = true;
  show_server_extension = false;
  show_blade_extension = false;
  show_network_extension = true;
  show_spanning_tree = false;
  show_stacking = false;
  show_pdu_extension = false;
  rack_placement_required = true;
}
device_form_config firewall = record {
  show_rack_placement = true;
  show_power_physical = true;
  show_lifecycle_dates = true;
  show_management_ip = true;
  show_snmp = true;
  show_ssh = true;
  show_server_extension = false;
  show_blade_extension = false;
  show_network_extension = true;
  show_spanning_tree = false;
  show_stacking = false;
  show_pdu_extension = false;
  rack_placement_required = true;
}
device_form_config load_balancer = record {
  show_rack_placement = true;
  show_power_physical = true;
  show_lifecycle_dates = true;
  show_management_ip = true;
  show_snmp = true;
  show_ssh = true;
  show_server_extension = false;
  show_blade_extension = false;
  show_network_extension = true;
  show_spanning_tree = false;
  show_stacking = false;
  show_pdu_extension = false;
  rack_placement_required = true;
}
device_form_config pdu = record {
  show_rack_placement = true;
  show_power_physical = true;
  show_lifecycle_dates = true;
  show_management_ip = true;
  show_snmp = true;
  show_ssh = false;
  show_server_extension = false;
  show_blade_extension = false;
  show_network_extension = false;
  show_spanning_tree = false;
  show_stacking = false;
  show_pdu_extension = true;
  rack_placement_required = true;
}
device_form_config storage = record {
  show_rack_placement = true;
  show_power_physical = true;
  show_lifecycle_dates = true;
  show_management_ip = true;
  show_snmp = true;
  show_ssh = true;
  show_server_extension = false;
  show_blade_extension = false;
  show_network_extension = false;
  show_spanning_tree = false;
  show_stacking = false;
  show_pdu_extension = false;
  rack_placement_required = true;
}
device_form_config kvm = record {
  show_rack_placement = true;
  show_power_physical = true;
  show_lifecycle_dates = true;
  show_management_ip = true;
  show_snmp = false;
  show_ssh = true;
  show_server_extension = false;
  show_blade_extension = false;
  show_network_extension = false;
  show_spanning_tree = false;
  show_stacking = false;
  show_pdu_extension = false;
  rack_placement_required = true;
}
device_form_config patch_panel = record {
  show_rack_placement = true;
  show_power_physical = false;
  show_lifecycle_dates = false;
  show_management_ip = false;
  show_snmp = false;
  show_ssh = false;
  show_server_extension = false;
  show_blade_extension = false;
  show_network_extension = false;
  show_spanning_tree = false;
  show_stacking = false;
  show_pdu_extension = false;
  rack_placement_required = true;
}
device_form_config cable_manager = record {
  show_rack_placement = true;
  show_power_physical = false;
  show_lifecycle_dates = false;
  show_management_ip = false;
  show_snmp = false;
  show_ssh = false;
  show_server_extension = false;
  show_blade_extension = false;
  show_network_extension = false;
  show_spanning_tree = false;
  show_stacking = false;
  show_pdu_extension = false;
  rack_placement_required = true;
}
device_form_config other = record {
  show_rack_placement = true;
  show_power_physical = true;
  show_lifecycle_dates = true;
  show_management_ip = true;
  show_snmp = true;
  show_ssh = true;
  show_server_extension = false;
  show_blade_extension = false;
  show_network_extension = false;
  show_spanning_tree = false;
  show_stacking = false;
  show_pdu_extension = false;
  rack_placement_required = true;
}

-- The keys of the table.
abbrev pub device_types : List (String × DeviceType)
device_types =
    ("server", server)
    ∷ ("switch", switch)
    ∷ ("router", router)
    ∷ ("firewall", firewall)
    ∷ ("storage", storage)
    ∷ ("pdu", pdu)
    ∷ ("patch_panel", patch_panel)
    ∷ ("kvm", kvm)
    ∷ ("load_balancer", load_balancer)
    ∷ ("cable_manager", cable_manager)
    ∷ ("blade_chassis", blade_chassis)
    ∷ ("blade", blade)
    ∷ ("other", other)
    ∷ []

-- The row that a string names, if one does.
unfoldable pub device_type_of : String → Option DeviceType
unfolding lookup
device_type_of s = lookup s device_types

abbrev or_other : Option DeviceType → DeviceType
or_other none = other
or_other (some t) = t

unfoldable pub get_device_form_config : String → DeviceFormSections
unfolding device_form_config device_type_of
get_device_form_config s = device_form_config (or_other (device_type_of s))
