-- ===== src/Api/Virtual.antt =====
-- The hooks of frontend/src/api: virtual.ts.
use datacenter_manager.Prelude.{String, Option, [], ◌∷◌}
use datacenter_manager.Api.{
  Params, Query, Mutation, list_query, item_query, create, update, remove, patch,
}
use datacenter_manager.DeviceEditor.Body.{Body}

-- virtual.ts
abbrev pub use_virt_clusters : Option Params → Query
use_virt_clusters params = list_query "virt-clusters" ("virt" ∷ "clusters" ∷ []) 100 params

abbrev pub use_virt_cluster : String → Query
use_virt_cluster id = item_query "virt-clusters" ("virt" ∷ "clusters" ∷ []) id

abbrev pub use_create_virt_cluster : Body → Mutation
use_create_virt_cluster body = create "virt-clusters" ("virt" ∷ "clusters" ∷ []) body

abbrev pub use_update_virt_cluster : String → Body → Mutation
use_update_virt_cluster id body = update "virt-clusters" patch ("virt" ∷ "clusters" ∷ []) id body

abbrev pub use_delete_virt_cluster : String → Mutation
use_delete_virt_cluster id = remove "virt-clusters" ("virt" ∷ "clusters" ∷ []) id

abbrev pub use_virt_hosts : Option Params → Query
use_virt_hosts params = list_query "virt-hosts" ("virt" ∷ "hosts" ∷ []) 200 params

abbrev pub use_virt_host : String → Query
use_virt_host id = item_query "virt-hosts" ("virt" ∷ "hosts" ∷ []) id

abbrev pub use_create_virt_host : Body → Mutation
use_create_virt_host body = create "virt-hosts" ("virt" ∷ "hosts" ∷ []) body

abbrev pub use_update_virt_host : String → Body → Mutation
use_update_virt_host id body = update "virt-hosts" patch ("virt" ∷ "hosts" ∷ []) id body

abbrev pub use_delete_virt_host : String → Mutation
use_delete_virt_host id = remove "virt-hosts" ("virt" ∷ "hosts" ∷ []) id

abbrev pub use_vms : Option Params → Query
use_vms params = list_query "virt-vms" ("virt" ∷ "vms" ∷ []) 200 params

abbrev pub use_vm : String → Query
use_vm id = item_query "virt-vms" ("virt" ∷ "vms" ∷ []) id

abbrev pub use_create_vm : Body → Mutation
use_create_vm body = create "virt-vms" ("virt" ∷ "vms" ∷ []) body

abbrev pub use_update_vm : String → Body → Mutation
use_update_vm id body = update "virt-vms" patch ("virt" ∷ "vms" ∷ []) id body

abbrev pub use_delete_vm : String → Mutation
use_delete_vm id = remove "virt-vms" ("virt" ∷ "vms" ∷ []) id

abbrev pub use_datastores : Option Params → Query
use_datastores params = list_query "datastores" ("virt" ∷ "datastores" ∷ []) 100 params

abbrev pub use_create_datastore : Body → Mutation
use_create_datastore body = create "datastores" ("virt" ∷ "datastores" ∷ []) body

abbrev pub use_delete_datastore : String → Mutation
use_delete_datastore id = remove "datastores" ("virt" ∷ "datastores" ∷ []) id
