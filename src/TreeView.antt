-- ===== src/TreeView.antt =====
-- frontend/src/pages/TreeView.tsx: the state of the page, its handlers and what they read. The query
-- cache is a function of each query's key: what it holds, and whether it is being fetched. The API is
-- a parameter: for each query, the `items` of its response, if it has them.
use Prim.Native.String.{◌++◌ as str_append}
use datacenter_manager.Prelude.{
  String, Bool, true, false, not, Option, none, some, List, [], ◌∷◌, ◌++◌, any, filter, str_eq,
  head?, if◌then◌else◌,
}
use datacenter_manager.DeviceRecords.{DeviceRead}
use datacenter_manager.InfraRecords.{
  DataCenterRead, RoomRead, RackRead, NetworkInterfaceRead, VmRead, VirtHostRead,
}
pub mod Sets
pub mod Keys
pub mod Matching
pub mod Rows
pub mod Visible
mod Sound
mod Complete
pub mod Refinement
pub mod Expansion
pub mod Refused
pub mod Search
pub mod Highlight
mod Tests
pub mod Badge
pub mod DetailPanel
pub mod Page
pub mod Unfiltered
pub mod Speed

pub data NodeKind : Type 0 where
  datacenter_kind room_kind rack_kind device_kind interface_kind vm_kind : NodeKind

-- `kind` and `data` of a SelectedNode.
pub data NodeData : Type 0 where
  datacenter : DataCenterRead → NodeData
  room : RoomRead → NodeData
  rack : RackRead → NodeData
  device : DeviceRead → NodeData
  interface : NetworkInterfaceRead → NodeData
  vm : VmRead → NodeData

abbrev pub kind : NodeData → NodeKind
kind (datacenter d) = datacenter_kind
kind (room r) = room_kind
kind (rack r) = rack_kind
kind (device d) = device_kind
kind (interface i) = interface_kind
kind (vm v) = vm_kind

abbrev pub id_of : NodeData → String
id_of (datacenter d) = d.id
id_of (room r) = r.id
id_of (rack r) = r.id
id_of (device d) = d.id
id_of (interface i) = i.id
id_of (vm v) = v.id

abbrev pub prefix_of : NodeKind → String
prefix_of datacenter_kind = "datacenter-"
prefix_of room_kind = "room-"
prefix_of rack_kind = "rack-"
prefix_of device_kind = "device-"
prefix_of interface_kind = "interface-"
prefix_of vm_kind = "vm-"

-- The `nodeId` or `key` of a row.
unfoldable pub node_key : NodeData → String
node_key n = str_append (prefix_of (kind n)) (id_of n)

-- What a query holds: nothing before it is answered, and nothing if its request is refused.
pub record Query (A : Type 0) : Type 0 where
  pub cached : Option A
  pub is_fetching : Bool

pub record Queries : Type 0 where
  pub tree_rooms : String → Query (List RoomRead)
  pub tree_racks : String → Query (List RackRead)
  pub tree_devices_rack : String → Query (List DeviceRead)
  pub tree_ifaces : String → Query (List NetworkInterfaceRead)
  pub tree_vhost : String → Query (Option VirtHostRead)
  pub tree_vms : String → Query (List VmRead)
  pub tree_blades : String → Query (List DeviceRead)

-- `expanded.has(id)` of a `Set`, whose values are in the order in which they were added
abbrev pub has : String → List String → Bool
has id set = any (str_eq id) set

-- `next.add(id)`
abbrev pub add : String → List String → List String
add id set = if has id set then set else set ++ (id ∷ [])

-- `next.delete(id)`
abbrev pub delete : String → List String → List String
delete id set = filter (λ j. not (str_eq id j)) set

unfoldable pub toggle : String → List String → List String
toggle id expanded = if has id expanded then delete id expanded else add id expanded

-- `forEach` over what a query of the cache holds, if anything
abbrev pub for_each {ℓ} :
    {A : Type ℓ} → (A → List String → List String) → List A → List String → List String
for_each f [] next = next
for_each f (x ∷ xs) next = for_each f xs (f x next)

abbrev pub for_each_cached {ℓ} :
    {A : Type ℓ} → (A → List String → List String) → Option (List A) → List String → List String
for_each_cached f none next = next
for_each_cached f (some xs) next = for_each f xs next

unfoldable pub expand_device : DeviceRead → List String → List String
expand_device dev next = add (node_key (device dev)) next

unfoldable pub expand_rack : Queries → RackRead → List String → List String
expand_rack qc r next =
    for_each_cached expand_device (qc.tree_devices_rack r.id).cached (add (node_key (rack r)) next)

unfoldable pub expand_room : Queries → RoomRead → List String → List String
expand_room qc r next =
    for_each_cached (expand_rack qc) (qc.tree_racks r.id).cached (add (node_key (room r)) next)

unfoldable pub expand_datacenter : Queries → DataCenterRead → List String → List String
expand_datacenter qc dc next =
    for_each_cached (expand_room qc) (qc.tree_rooms dc.id).cached
      (add (node_key (datacenter dc)) next)

unfoldable pub expand_all : Queries → List DataCenterRead → List String → List String
expand_all qc dcs expanded = for_each (expand_datacenter qc) dcs expanded

abbrev pub collapse_all : List String
collapse_all = []

-- `handleSelect`, on the node that is selected: a click on it again selects none.
unfoldable pub handle_select : NodeData → Option NodeData → Option NodeData
handle_select node none = some node
handle_select node (some prev) = if str_eq (node_key prev) (node_key node) then none else some node
