-- ===== src/DeviceForm/Coherence.antt =====
-- How the rows of the table of frontend/src/lib/deviceFormConfig.ts fit together.
use datacenter_manager.Prelude.{
  String, ◌≡◌, ◌↔◌, true, false, not, Option, none, some, arith, In, In-lookup, refl, ap,
}
use datacenter_manager.DeviceForm.{
  DeviceType, DeviceFormSections, device_types, device_form_config, device_type_of,
  get_device_form_config, or_other, server, blade,
}

-- What every row keeps to: a type goes into a rack or into a chassis; a place in the rack is
-- required wherever it is shown; the spanning tree and the stack belong to the network section; a
-- blade has the server section; no two of the server, network and PDU sections are shown together;
-- SNMP needs the management address, and power data and life cycle dates come together.
pub record IsCoherent (c : DeviceFormSections) : Type 0 where
  pub rack_or_chassis : c.show_blade_extension ≡ not c.show_rack_placement
  pub required_where_shown : c.rack_placement_required ≡ c.show_rack_placement
  pub tree_with_stack : c.show_spanning_tree ≡ c.show_stacking
  pub stack_in_network : c.show_stacking ≡ true → c.show_network_extension ≡ true
  pub blade_is_server : c.show_blade_extension ≡ true → c.show_server_extension ≡ true
  pub server_alone :
      c.show_server_extension ≡ true
      → (c.show_network_extension ≡ false) × (c.show_pdu_extension ≡ false)
  pub network_alone : c.show_network_extension ≡ true → c.show_pdu_extension ≡ false
  pub snmp_managed : c.show_snmp ≡ true → c.show_management_ip ≡ true
  pub power_with_dates : c.show_power_physical ≡ c.show_lifecycle_dates

row-IsCoherent : (t : DeviceType) → IsCoherent (device_form_config t)
unfolding device_form_config
row-IsCoherent server = ground arith
row-IsCoherent _ = ground arith

-- Every device type, known to the table or not, has a coherent set of sections.
pub get_device_form_config-IsCoherent : (s : String) → IsCoherent (get_device_form_config s)
unfolding get_device_form_config
get_device_form_config-IsCoherent s = row-IsCoherent (or_other (device_type_of s))

-- Only `blade` names the row of the blades, the one row with no place in a rack.
blade_key : (s : String) → In (s, blade) device_types → s ≡ "blade"
blade_key s m = ground arith

device_type_of-blade : (s : String) → device_type_of s ≡ some blade → s ≡ "blade"
unfolding device_type_of
device_type_of-blade s h = blade_key s (In-lookup s blade device_types h)

show_rack_placement-row :
    (o : Option DeviceType)
    → (device_form_config (or_other o)).show_rack_placement ≡ false
    → o ≡ some blade
unfolding device_form_config
show_rack_placement-row none h = absurd (cc)
show_rack_placement-row (some blade) h = refl
show_rack_placement-row (some _) h = absurd (cc)

-- The form leaves out the place in the rack exactly for the type "blade".
pub show_rack_placement_iff :
    (s : String) → ((get_device_form_config s).show_rack_placement ≡ false) ↔ (s ≡ "blade")
unfolding get_device_form_config
show_rack_placement_iff s = (
  λ h. device_type_of-blade s (show_rack_placement-row (device_type_of s) h),
  λ e. ap (λ t. (get_device_form_config t).show_rack_placement) e,
)
