-- ===== src/DeviceEditor/Body.antt =====
-- frontend/src/pages/Devices.tsx: what the dialog sends. A body is the list of its entries, in the
-- order in which they are set. `undefined` entries are left out, as JSON does.
use Prim.Native.String.{String}
use datacenter_manager.Prelude.{
  Bool, true, false, not, ◌&&◌, Option, none, some, List, ◌∷◌, ◌++◌, if◌then◌else◌, str_eq,
}
use datacenter_manager.Prelude.Int.{ℤ}
use datacenter_manager.Prelude.Numerals.{parse_int}
use datacenter_manager.DeviceForm.{DeviceFormSections, get_device_form_config}
use datacenter_manager.DeviceEditor.{FormData, ServerExtForm, NetworkExtForm, PduExtForm, State}

-- A JSON value. `decimal s` is the number that `parseFloat` reads from `s`.
pub data Value : Type 0 where
  null : Value
  text : String → Value
  number : ℤ → Value
  decimal : String → Value
  bool : Bool → Value

abbrev pub Body : Type 0
Body = List (String × Value)

-- x || null
abbrev pub or_null : String → Value
or_null s = if str_eq s "" then null else text s

-- NaN is `null` in JSON.
abbrev pub number_or_nan : Option ℤ → Value
number_or_nan none = null
number_or_nan (some n) = number n

-- x ? parseInt(x) : null
abbrev pub int_or_null : String → Value
int_or_null s = if str_eq s "" then null else number_or_nan (parse_int s)

-- x ? parseFloat(x) : null
abbrev pub float_or_null : String → Value
float_or_null s = if str_eq s "" then null else decimal s

-- x || undefined
abbrev or_undefined : String → String → Body
or_undefined key s = if str_eq s "" then List.[] else (key, text s) ∷ List.[]

-- The entries that a section adds.
abbrev pub section : Bool → Body → Body
section true entries = entries
section false entries = List.[]

abbrev pub base_entries : FormData → Body
base_entries f =
    ("name", text f.name)
    ∷ ("device_type", text f.device_type)
    ∷ ("manufacturer", or_null f.manufacturer)
    ∷ ("model", or_null f.model)
    ∷ ("part_number", or_null f.part_number)
    ∷ ("serial_number", or_null f.serial_number)
    ∷ ("asset_tag", or_null f.asset_tag)
    ∷ ("status", text f.status)
    ∷ ("notes", or_null f.notes)
    ∷ List.[]

abbrev pub rack_entries : FormData → Body
rack_entries f =
    ("rack_id", or_null f.rack_id)
    ∷ ("rack_unit_start", int_or_null f.rack_unit_start)
    ∷ ("rack_unit_size", int_or_null f.rack_unit_size)
    ∷ ("face", or_null f.face)
    ∷ List.[]

abbrev pub power_entries : FormData → Body
power_entries f =
    ("power_rated_w", int_or_null f.power_rated_w)
    ∷ ("weight_kg", float_or_null f.weight_kg)
    ∷ List.[]

abbrev pub date_entries : FormData → Body
date_entries f =
    ("purchase_date", or_null f.purchase_date)
    ∷ ("warranty_expiry", or_null f.warranty_expiry)
    ∷ ("end_of_support_date", or_null f.end_of_support_date)
    ∷ ("end_of_life_date", or_null f.end_of_life_date)
    ∷ List.[]

abbrev pub management_entries : FormData → Body
management_entries f =
    ("management_ip", or_null f.management_ip)
    ∷ ("management_protocol", or_null f.management_protocol)
    ∷ List.[]

abbrev pub snmp_entries : FormData → Body
snmp_entries f =
    ("snmp_community", or_null f.snmp_community)
    ∷ ("snmp_version", or_null f.snmp_version)
    ∷ List.[]

abbrev pub ssh_entries : FormData → Body
ssh_entries f =
    ("ssh_username", or_null f.ssh_username) ∷ or_undefined "ssh_password" f.ssh_password

unfoldable pub to_body : DeviceFormSections → FormData → Body
to_body cfg f =
    base_entries f
    ++ (section cfg.show_rack_placement (rack_entries f)
        ++ (section cfg.show_power_physical (power_entries f)
            ++ (section cfg.show_lifecycle_dates (date_entries f)
                ++ (section cfg.show_management_ip (management_entries f)
                    ++ (section cfg.show_snmp (snmp_entries f)
                        ++ section cfg.show_ssh (ssh_entries f))))))

abbrev pub server_entries : ServerExtForm → Body
server_entries x =
    ("form_factor", or_null x.form_factor)
    ∷ ("cpu_model", or_null x.cpu_model)
    ∷ ("cpu_socket_count", int_or_null x.cpu_socket_count)
    ∷ ("cpu_cores_per_socket", int_or_null x.cpu_cores_per_socket)
    ∷ ("cpu_threads_per_core", int_or_null x.cpu_threads_per_core)
    ∷ ("ram_gb", int_or_null x.ram_gb)
    ∷ ("ram_max_gb", int_or_null x.ram_max_gb)
    ∷ ("nic_count", int_or_null x.nic_count)
    ∷ ("hba_count", int_or_null x.hba_count)
    ∷ ("bios_version", or_null x.bios_version)
    ∷ ("bmc_firmware_version", or_null x.bmc_firmware_version)
    ∷ List.[]

abbrev pub blade_entries : ServerExtForm → Body
blade_entries x =
    ("blade_chassis_id", or_null x.blade_chassis_id)
    ∷ ("blade_slot", int_or_null x.blade_slot)
    ∷ List.[]

abbrev pub chassis_entries : ServerExtForm → Body
chassis_entries x =
    ("total_blade_slots", int_or_null x.total_blade_slots)
    ∷ ("ethernet_switch_modules", int_or_null x.ethernet_switch_modules)
    ∷ ("fc_switch_modules", int_or_null x.fc_switch_modules)
    ∷ List.[]

abbrev pub network_entries : NetworkExtForm → Body
network_entries x =
    ("os_type", or_null x.os_type)
    ∷ ("os_version", or_null x.os_version)
    ∷ ("port_count", int_or_null x.port_count)
    ∷ ("uplink_port_count", int_or_null x.uplink_port_count)
    ∷ ("management_vlan", int_or_null x.management_vlan)
    ∷ ("spanning_tree_mode", or_null x.spanning_tree_mode)
    ∷ ("spanning_tree_priority", int_or_null x.spanning_tree_priority)
    ∷ ("stacking_enabled", bool x.stacking_enabled)
    ∷ ("stack_member_id", int_or_null x.stack_member_id)
    ∷ ("snmp_sysoid", or_null x.snmp_sysoid)
    ∷ List.[]

abbrev pub pdu_entries : PduExtForm → Body
pdu_entries x =
    ("outlet_count", int_or_null x.outlet_count)
    ∷ ("outlet_type", or_null x.outlet_type)
    ∷ ("input_voltage", int_or_null x.input_voltage)
    ∷ ("input_current_max_a", float_or_null x.input_current_max_a)
    ∷ ("is_metered", bool x.is_metered)
    ∷ ("is_switched", bool x.is_switched)
    ∷ ("current_load_w", int_or_null x.current_load_w)
    ∷ List.[]

abbrev pub cfg_of : State → DeviceFormSections
cfg_of s = get_device_form_config s.form.device_type

unfoldable pub to_server_ext_body : DeviceFormSections → State → Option Body
to_server_ext_body cfg s =
    if not cfg.show_server_extension && not cfg.show_blade_extension
    then none
    else some (
        server_entries s.server_ext
        ++ (section cfg.show_blade_extension (blade_entries s.server_ext)
            ++ section (str_eq s.form.device_type "blade_chassis") (chassis_entries s.server_ext)))

unfoldable pub to_network_ext_body : DeviceFormSections → State → Option Body
to_network_ext_body cfg s =
    if cfg.show_network_extension then some (network_entries s.network_ext) else none

unfoldable pub to_pdu_ext_body : DeviceFormSections → State → Option Body
to_pdu_ext_body cfg s = if cfg.show_pdu_extension then some (pdu_entries s.pdu_ext) else none
