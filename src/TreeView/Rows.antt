-- ===== src/TreeView/Rows.antt =====
-- frontend/src/pages/TreeView.tsx: the rows and hints that each kind of node renders, in order. A
-- row's `onToggle` is the id that it toggles, `none` where it does nothing, and its `onSelect` is the
-- node that it selects. `lower` is `toLowerCase`. The blades of a chassis are rendered by the
-- component of a device again, which therefore runs on fuel.
use datacenter_manager.Prelude.{
  ℕ, zero, suc, String, Bool, true, false, not, ◌&&◌, ◌||◌, Option, none, some, List, [], ◌∷◌, ◌++◌,
  map, flat_map, str_eq, if◌then◌else◌,
}
use datacenter_manager.DeviceRecords.{DeviceRead}
use datacenter_manager.InfraRecords.{
  DataCenterRead, RoomRead, RackRead, NetworkInterfaceRead, VmRead, VirtHostRead,
}
use datacenter_manager.TreeView.{
  NodeData, datacenter, room, rack, device, interface, vm, node_key, Query, Queries, has,
}
use datacenter_manager.TreeView.Matching.{is_match}
use datacenter_manager.TreeView.Speed.{interface_label}

pub record TreeRow : Type 0 where
  pub depth : ℕ
  pub label : String
  pub status : Option String
  pub is_expanded : Bool
  pub has_children : Bool
  pub is_fetching : Bool
  pub is_selected : Bool
  pub is_match : Bool
  pub on_toggle : Option String
  pub on_select : NodeData

-- TreeRow and EmptyHint
pub data Item : Type 0 where
  tree_row : TreeRow → Item
  empty_hint : ℕ → String → Item

-- The properties that every node gets from the page.
pub record View : Type 0 where
  pub expanded : List String
  pub selected_key : Option String
  pub search : String
  pub queries : Queries

-- `selectedKey === key`
abbrev pub is_key : Option String → String → Bool
is_key none key = false
is_key (some k) key = str_eq k key

-- `xs ?? []`, as `xs?.map` reads it
abbrev pub loaded {ℓ} : {A : Type ℓ} → Option (List A) → List A
loaded none = []
loaded (some xs) = xs

-- `!xs?.length`
abbrev pub lacks {ℓ} : {A : Type ℓ} → Option (List A) → Bool
lacks none = true
lacks (some []) = true
lacks (some (x ∷ xs)) = false

-- `!isFetching && xs?.length === 0 && <EmptyHint />`
abbrev pub hint_if_empty {ℓ} : {A : Type ℓ} → Bool → Option (List A) → ℕ → String → List Item
hint_if_empty fetching none depth message = []
hint_if_empty fetching (some (x ∷ xs)) depth message = []
hint_if_empty fetching (some []) depth message =
    if not fetching then empty_hint depth message ∷ [] else []

abbrev pub when {ℓ} : {A : Type ℓ} → Bool → List A → List A
when true xs = xs
when false xs = []

abbrev pub is_blade_chassis : DeviceRead → Bool
is_blade_chassis d = str_eq d.device_type "blade_chassis"

abbrev pub is_server_like : DeviceRead → Bool
is_server_like d = str_eq "server" d.device_type || str_eq "blade" d.device_type

-- `virtHost?.id ?? ""`
abbrev pub host_id : Option (Option VirtHostRead) → String
host_id none = ""
host_id (some none) = ""
host_id (some (some h)) = h.id

module _ (v : View) where
  abbrev pub is_open : NodeData → Bool
  is_open n = has (node_key n) v.expanded

  abbrev pub ifaces_of : DeviceRead → Query (List NetworkInterfaceRead)
  ifaces_of d = v.queries.tree_ifaces d.id

  abbrev pub vms_of : DeviceRead → Query (List VmRead)
  vms_of d = v.queries.tree_vms (host_id (v.queries.tree_vhost d.id).cached)

  abbrev pub blades_of : DeviceRead → Query (List DeviceRead)
  blades_of d = v.queries.tree_blades d.id

  unfoldable pub device_fetching : DeviceRead → Bool
  device_fetching d =
      is_open (device d)
      && ((ifaces_of d).is_fetching || (vms_of d).is_fetching || (blades_of d).is_fetching)

  unfoldable pub has_no_children : DeviceRead → Bool
  has_no_children d =
      is_open (device d)
      && not (device_fetching d)
      && lacks (ifaces_of d).cached
      && lacks (vms_of d).cached
      && lacks (blades_of d).cached

module _ (lower : String → String) (v : View) where
  -- The row of a node that can be expanded.
  unfoldable pub node_row : NodeData → ℕ → String → Option String → Bool → TreeRow
  node_row n depth name status fetching = record {
    depth = depth;
    label = name;
    status = status;
    is_expanded = has (node_key n) v.expanded;
    has_children = true;
    is_fetching = fetching;
    is_selected = is_key v.selected_key (node_key n);
    is_match = is_match lower v.search name;
    on_toggle = some (node_key n);
    on_select = n;
  }

  -- The row of an interface or a VM.
  unfoldable pub leaf_row : NodeData → ℕ → String → String → String → TreeRow
  leaf_row n depth label name status = record {
    depth = depth;
    label = label;
    status = some status;
    is_expanded = false;
    has_children = false;
    is_fetching = false;
    is_selected = is_key v.selected_key (node_key n);
    is_match = is_match lower v.search name;
    on_toggle = none;
    on_select = n;
  }

  abbrev pub interface_item : ℕ → NetworkInterfaceRead → Item
  interface_item depth i =
      tree_row (leaf_row (interface i) depth (interface_label i) i.name i.status)

  abbrev pub vm_item : ℕ → VmRead → Item
  vm_item depth m = tree_row (leaf_row (vm m) depth m.name m.name m.status)

  unfoldable pub device_node : ℕ → DeviceRead → ℕ → List Item
  device_node zero d depth = []
  device_node (suc fuel) d depth =
      tree_row (node_row (device d) depth d.name (some d.status) (device_fetching v d))
      ∷ when (is_open v (device d)) (
          when (is_blade_chassis d)
            (flat_map (λ blade. device_node fuel blade (suc depth)) (loaded (blades_of v d).cached))
          ++ map (interface_item (suc depth)) (loaded (ifaces_of v d).cached)
          ++ map (vm_item (suc depth)) (loaded (vms_of v d).cached)
          ++ when (has_no_children v d) (empty_hint depth "No interfaces or VMs" ∷ []))

  unfoldable pub rack_node : ℕ → RackRead → ℕ → List Item
  rack_node fuel r depth =
      let q = v.queries.tree_devices_rack r.id in
      tree_row
        (node_row (rack r) depth r.name (some r.status) (q.is_fetching && is_open v (rack r)))
      ∷ when (is_open v (rack r)) (
          flat_map (λ d. device_node fuel d (suc depth)) (loaded q.cached)
          ++ hint_if_empty q.is_fetching q.cached depth "No devices")

  unfoldable pub room_node : ℕ → RoomRead → ℕ → List Item
  room_node fuel r depth =
      let q = v.queries.tree_racks r.id in
      tree_row (node_row (room r) depth r.name none (q.is_fetching && is_open v (room r)))
      ∷ when (is_open v (room r)) (
          flat_map (λ k. rack_node fuel k (suc depth)) (loaded q.cached)
          ++ hint_if_empty q.is_fetching q.cached depth "No racks")

  unfoldable pub datacenter_node : ℕ → DataCenterRead → ℕ → List Item
  datacenter_node fuel dc depth =
      let q = v.queries.tree_rooms dc.id in
      tree_row
        (node_row (datacenter dc) depth dc.name none (q.is_fetching && is_open v (datacenter dc)))
      ∷ when (is_open v (datacenter dc)) (
          flat_map (λ r. room_node fuel r (suc depth)) (loaded q.cached)
          ++ hint_if_empty q.is_fetching q.cached depth "No rooms")

  -- The body of the page once the data centers are loaded.
  unfoldable pub tree : ℕ → List DataCenterRead → List Item
  tree fuel dcs = flat_map (λ dc. datacenter_node fuel dc 0) dcs
