-- ===== src/TreeView/DetailPanel.antt =====
-- frontend/src/pages/TreeView.tsx: the fields of the panel of the selected node, and where its button
-- leads. A field whose value is null, undefined or the empty text is not shown. An id is a path
-- segment as the API makes it.
use Prim.Native.String.{◌++◌ as str_append}
use datacenter_manager.Prelude.{
  String, Bool, true, false, Option, none, some, List, [], ◌∷◌, ◌++◌, ℕ, zero, if◌then◌else◌,
}
use datacenter_manager.Prelude.Int.{ℤ, pos}
use datacenter_manager.Prelude.Numerals.{show_int}
use datacenter_manager.DeviceRecords.{DeviceRead}
use datacenter_manager.InfraRecords.{
  DataCenterRead, RoomRead, RackRead, NetworkInterfaceRead, VmRead,
}
use datacenter_manager.TreeView.{NodeData, datacenter, room, rack, device, interface, vm}
use datacenter_manager.TreeView.Matching.{is_nonempty}
use datacenter_manager.TreeView.Badge.{spaced}

pub record Field : Type 0 where
  pub label : String
  pub value : String

-- DetailField
abbrev pub detail_field : String → Option String → List Field
detail_field label none = []
detail_field label (some value) =
    if is_nonempty value then record { label = label; value = value } ∷ [] else []

abbrev pub is_truthy : ℤ → Bool
is_truthy (pos zero) = false
is_truthy z = true

-- `${z}` with what is around it, if `z` is truthy
abbrev pub with_unit : Option ℤ → String → Option String
with_unit none unit = none
with_unit (some z) unit = if is_truthy z then some (str_append (show_int z) unit) else none

-- `${s}` with what follows it, if `s` is truthy
abbrev pub text_with_unit : Option String → String → Option String
text_with_unit none unit = none
text_with_unit (some s) unit = if is_nonempty s then some (str_append s unit) else none

abbrev pub number : Option ℤ → Option String
number none = none
number (some z) = some (show_int z)

abbrev pub yes_if : Bool → Option String
yes_if true = some "Yes"
yes_if false = none

-- `[row, column].filter(Boolean).join(" / ") || null`
unfoldable pub row_and_column : Option String → Option String → Option String
row_and_column row column = joined (text_with_unit row "") (text_with_unit column "")
  where
    joined : Option String → Option String → Option String
    joined none none = none
    joined none (some c) = some c
    joined (some r) none = some r
    joined (some r) (some c) = some (str_append r (str_append " / " c))

unfoldable pub dimensions : Option String → Option String → Option String → Option String
dimensions width depth height = of_parts (text_with_unit width " m") (text_with_unit depth " m")
  where
    height_part : Option String → String
    height_part none = ""
    height_part (some h) = str_append " × " h

    of_parts : Option String → Option String → Option String
    of_parts none d = none
    of_parts (some w) none = none
    of_parts (some w) (some d) =
        some (
          str_append w (str_append " × " (str_append d (height_part (text_with_unit height " m")))))

abbrev pub datacenter_fields : DataCenterRead → List Field
datacenter_fields dc =
    detail_field "City" dc.city
    ++ detail_field "Country" dc.country
    ++ detail_field "Address" dc.address
    ++ detail_field "Total Power" (text_with_unit dc.total_power_kw " kW")
    ++ detail_field "Total Cooling" (text_with_unit dc.total_cooling_kw " kW")
    ++ detail_field "PUE" dc.pue
    ++ detail_field "Notes" dc.notes

abbrev pub room_fields : RoomRead → List Field
room_fields r =
    detail_field "Floor" (number r.floor)
    ++ detail_field "Cooling" r.cooling_type
    ++ detail_field "Raised Floor" (some (if r.raised_floor then "Yes" else "No"))
    ++ detail_field "Max Power" (text_with_unit r.max_power_kw " kW")
    ++ detail_field "Dimensions" (dimensions r.width_m r.depth_m r.height_m)
    ++ detail_field "Notes" r.notes

abbrev pub rack_fields : RackRead → List Field
rack_fields r =
    detail_field "Status" (some r.status)
    ++ detail_field "Row / Col" (row_and_column r.row r.column)
    ++ detail_field "Size" (some (str_append (show_int r.total_u) " U"))
    ++ detail_field "Max Power" (with_unit r.max_power_w " W")
    ++ detail_field "Manufacturer" r.manufacturer
    ++ detail_field "Model" r.model
    ++ detail_field "Serial No." r.serial_number
    ++ detail_field "Notes" r.notes

abbrev pub rack_position : Option ℤ → Option String
rack_position none = none
rack_position (some z) = if is_truthy z then some (str_append "U" (show_int z)) else none

abbrev pub device_fields : DeviceRead → List Field
device_fields d =
    detail_field "Type" (some (spaced d.device_type))
    ++ detail_field "Status" (some d.status)
    ++ detail_field "Manufacturer" d.manufacturer
    ++ detail_field "Model" d.model
    ++ detail_field "Serial No." d.serial_number
    ++ detail_field "Asset Tag" d.asset_tag
    ++ detail_field "Rack Position" (rack_position d.rack_unit_start)
    ++ detail_field "Power (rated)" (with_unit d.power_rated_w " W")
    ++ detail_field "Power (actual)" (with_unit d.power_actual_w " W")
    ++ detail_field "Mgmt IP" d.management_ip
    ++ detail_field "Warranty" d.warranty_expiry
    ++ detail_field "End of Life" d.end_of_life_date

abbrev pub speed_field : Option ℕ → Option String
speed_field none = none
speed_field (some n) = with_unit (some (pos n)) " Mbps"

abbrev pub interface_fields : NetworkInterfaceRead → List Field
interface_fields i =
    detail_field "Media Type" (some i.media_type)
    ++ detail_field "Status" (some i.status)
    ++ detail_field "Speed" (speed_field i.speed_mbps)
    ++ detail_field "MAC" i.mac_address
    ++ detail_field "WWN" i.wwn
    ++ detail_field "Management" (yes_if i.is_management)
    ++ detail_field "Uplink" (yes_if i.is_uplink)
    ++ detail_field "Duplex" i.duplex
    ++ detail_field "MTU" (with_unit i.mtu "")

abbrev pub vm_fields : VmRead → List Field
vm_fields m =
    detail_field "Status" (some m.status)
    ++ detail_field "OS Type" m.os_type
    ++ detail_field "OS Version" m.os_version
    ++ detail_field "vCPU" (number m.vcpu_count)
    ++ detail_field "RAM" (with_unit m.ram_gb " GB")
    ++ detail_field "Storage" (with_unit m.storage_gb " GB")
    ++ detail_field "Snapshots" (number m.snapshot_count)
    ++ detail_field "Template" (yes_if m.is_template)
    ++ detail_field "Tools" m.tools_version
    ++ detail_field "Last Seen" m.last_seen_at

unfoldable pub fields : NodeData → List Field
fields (datacenter dc) = datacenter_fields dc
fields (room r) = room_fields r
fields (rack r) = rack_fields r
fields (device d) = device_fields d
fields (interface i) = interface_fields i
fields (vm m) = vm_fields m

-- Where the button "Open Full Page" leads, if there is one.
unfoldable pub full_page : NodeData → Option String
full_page (datacenter dc) = some "/datacenters"
full_page (rack r) = some "/racks"
full_page (device d) = some (str_append "/devices/" d.id)
full_page _ = none
