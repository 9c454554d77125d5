-- ===== src/Api/Tree.antt =====
-- The queries of frontend/src/pages/TreeView.tsx. Each takes the rows of a page, and `enabled` from
-- the node that it is for.
use datacenter_manager.Prelude.{ℕ, String, Bool, List, [], ◌∷◌}
use datacenter_manager.Api.{Query, fetch, name, text, number, paged}

abbrev tree_query : String → List String → String → ℕ → String → Bool → Query
tree_query key path param size id enabled = record {
  key = name key ∷ name id ∷ [];
  request = fetch path ((param, text id) ∷ ("size", number size) ∷ []);
  expects = paged;
  enabled = enabled;
}

abbrev pub use_tree_rooms : String → Bool → Query
use_tree_rooms dc_id = tree_query "tree-rooms" ("rooms" ∷ []) "datacenter_id" 500 dc_id

abbrev pub use_tree_racks : String → Bool → Query
use_tree_racks room_id = tree_query "tree-racks" ("racks" ∷ []) "room_id" 500 room_id

abbrev pub use_tree_devices : String → Bool → Query
use_tree_devices rack_id = tree_query "tree-devices-rack" ("devices" ∷ []) "rack_id" 500 rack_id

abbrev pub use_tree_interfaces : String → Bool → Query
use_tree_interfaces device_id =
    tree_query "tree-ifaces" ("interfaces" ∷ []) "device_id" 200 device_id

abbrev pub use_tree_virt_host : String → Bool → Query
use_tree_virt_host device_id =
    tree_query "tree-vhost" ("virt" ∷ "hosts" ∷ []) "device_id" 5 device_id

abbrev pub use_tree_vms : String → Bool → Query
use_tree_vms host_id = tree_query "tree-vms" ("virt" ∷ "vms" ∷ []) "host_id" 500 host_id

abbrev pub use_tree_blades : String → Bool → Query
use_tree_blades chassis_id =
    tree_query "tree-blades" ("devices" ∷ []) "blade_chassis_id" 200 chassis_id

pub data IsTreeQuery : (String → Bool → Query) → Type 0 where
  rooms : IsTreeQuery use_tree_rooms
  racks : IsTreeQuery use_tree_racks
  devices : IsTreeQuery use_tree_devices
  interfaces : IsTreeQuery use_tree_interfaces
  virt_host : IsTreeQuery use_tree_virt_host
  vms : IsTreeQuery use_tree_vms
  blades : IsTreeQuery use_tree_blades
