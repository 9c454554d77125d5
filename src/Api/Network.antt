-- ===== src/Api/Network.antt =====
-- The hooks of frontend/src/api: links.ts, vlans.ts, ipNetworks.ts, ipAddresses.ts and sanFabrics.ts.
use datacenter_manager.Prelude.{String, Option, [], ◌∷◌}
use datacenter_manager.Api.{
  Params, Query, Mutation, fetch, is_given, list_query, item_query, create, update, remove, patch,
  name, text, listed,
}
use datacenter_manager.DeviceEditor.Body.{Body}

-- links.ts
abbrev pub use_links : Option Params → Query
use_links params = list_query "links" ("links" ∷ []) 200 params

abbrev pub use_create_link : Body → Mutation
use_create_link body = create "links" ("links" ∷ []) body

abbrev pub use_update_link : String → Body → Mutation
use_update_link id body = update "links" patch ("links" ∷ []) id body

abbrev pub use_delete_link : String → Mutation
use_delete_link id = remove "links" ("links" ∷ []) id

abbrev pub use_lag_groups : Option Params → Query
use_lag_groups params = list_query "lag-groups" ("lag-groups" ∷ []) 100 params

abbrev pub use_create_lag_group : Body → Mutation
use_create_lag_group body = create "lag-groups" ("lag-groups" ∷ []) body

abbrev pub use_delete_lag_group : String → Mutation
use_delete_lag_group id = remove "lag-groups" ("lag-groups" ∷ []) id

-- vlans.ts
abbrev pub use_vlans : Option Params → Query
use_vlans params = list_query "vlans" ("vlans" ∷ []) 200 params

abbrev pub use_vlan : String → Query
use_vlan id = item_query "vlans" ("vlans" ∷ []) id

abbrev pub use_create_vlan : Body → Mutation
use_create_vlan body = create "vlans" ("vlans" ∷ []) body

abbrev pub use_update_vlan : String → Body → Mutation
use_update_vlan id body = update "vlans" patch ("vlans" ∷ []) id body

abbrev pub use_delete_vlan : String → Mutation
use_delete_vlan id = remove "vlans" ("vlans" ∷ []) id

-- ipNetworks.ts
abbrev pub use_ip_networks : Option Params → Query
use_ip_networks params = list_query "ip-networks" ("ip-networks" ∷ []) 200 params

abbrev pub use_ip_network : String → Query
use_ip_network id = item_query "ip-networks" ("ip-networks" ∷ []) id

abbrev pub use_create_ip_network : Body → Mutation
use_create_ip_network body = create "ip-networks" ("ip-networks" ∷ []) body

abbrev pub use_update_ip_network : String → Body → Mutation
use_update_ip_network id body = update "ip-networks" patch ("ip-networks" ∷ []) id body

abbrev pub use_delete_ip_network : String → Mutation
use_delete_ip_network id = remove "ip-networks" ("ip-networks" ∷ []) id

-- ipAddresses.ts
abbrev pub use_ip_addresses : Option Params → Query
use_ip_addresses params = list_query "ip-addresses" ("ip-addresses" ∷ []) 200 params

abbrev pub use_ip_address : String → Query
use_ip_address id = item_query "ip-addresses" ("ip-addresses" ∷ []) id

abbrev pub use_available_ips : String → Query
use_available_ips subnet_id = record {
  key = name "ip-addresses" ∷ name "available" ∷ name subnet_id ∷ [];
  request = fetch ("ip-addresses" ∷ "available" ∷ []) (("subnet_id", text subnet_id) ∷ []);
  expects = listed;
  enabled = is_given subnet_id;
}

abbrev pub use_create_ip_address : Body → Mutation
use_create_ip_address body = create "ip-addresses" ("ip-addresses" ∷ []) body

abbrev pub use_update_ip_address : String → Body → Mutation
use_update_ip_address id body = update "ip-addresses" patch ("ip-addresses" ∷ []) id body

abbrev pub use_delete_ip_address : String → Mutation
use_delete_ip_address id = remove "ip-addresses" ("ip-addresses" ∷ []) id

-- sanFabrics.ts
abbrev pub use_san_fabrics : Option Params → Query
use_san_fabrics params = list_query "san-fabrics" ("san-fabrics" ∷ []) 100 params

abbrev pub use_san_fabric : String → Query
use_san_fabric id = item_query "san-fabrics" ("san-fabrics" ∷ []) id

abbrev pub use_create_san_fabric : Body → Mutation
use_create_san_fabric body = create "san-fabrics" ("san-fabrics" ∷ []) body

abbrev pub use_update_san_fabric : String → Body → Mutation
use_update_san_fabric id body = update "san-fabrics" patch ("san-fabrics" ∷ []) id body

abbrev pub use_delete_san_fabric : String → Mutation
use_delete_san_fabric id = remove "san-fabrics" ("san-fabrics" ∷ []) id
