-- ===== src/Api/Routes/Virtual.antt =====
-- The routes of backend/app/api/v1/endpoints that the hooks of Api/Virtual are meant for.
use datacenter_manager.Prelude.{none, some, List, [], ◌∷◌}
use datacenter_manager.Api.{get, post, put, delete, paged, single, empty}
use datacenter_manager.Api.Routes.Pattern.{Route, lit, var, route}

abbrev pub list_clusters : Route
list_clusters = route get (lit "virt" ∷ lit "clusters" ∷ []) paged (some 100)

abbrev pub create_cluster : Route
create_cluster = route post (lit "virt" ∷ lit "clusters" ∷ []) single none

abbrev pub get_cluster : Route
get_cluster = route get (lit "virt" ∷ lit "clusters" ∷ var ∷ []) single none

abbrev pub update_cluster : Route
update_cluster = route put (lit "virt" ∷ lit "clusters" ∷ var ∷ []) single none

abbrev pub delete_cluster : Route
delete_cluster = route delete (lit "virt" ∷ lit "clusters" ∷ var ∷ []) empty none

abbrev pub list_cluster_hosts : Route
list_cluster_hosts =
    route get (lit "virt" ∷ lit "clusters" ∷ var ∷ lit "hosts" ∷ []) paged (some 100)

abbrev pub list_cluster_datastores : Route
list_cluster_datastores =
    route get (lit "virt" ∷ lit "clusters" ∷ var ∷ lit "datastores" ∷ []) paged (some 100)

abbrev pub virt_clusters_router : List Route
virt_clusters_router =
    list_clusters ∷ create_cluster ∷ get_cluster ∷ update_cluster ∷ delete_cluster
    ∷ list_cluster_hosts ∷ list_cluster_datastores ∷ []

abbrev pub list_hosts : Route
list_hosts = route get (lit "virt" ∷ lit "hosts" ∷ []) paged (some 100)

abbrev pub create_host : Route
create_host = route post (lit "virt" ∷ lit "hosts" ∷ []) single none

abbrev pub get_host : Route
get_host = route get (lit "virt" ∷ lit "hosts" ∷ var ∷ []) single none

abbrev pub update_host : Route
update_host = route put (lit "virt" ∷ lit "hosts" ∷ var ∷ []) single none

abbrev pub delete_host : Route
delete_host = route delete (lit "virt" ∷ lit "hosts" ∷ var ∷ []) empty none

abbrev pub list_host_vms : Route
list_host_vms = route get (lit "virt" ∷ lit "hosts" ∷ var ∷ lit "vms" ∷ []) paged (some 100)

abbrev pub virt_hosts_router : List Route
virt_hosts_router =
    list_hosts ∷ create_host ∷ get_host ∷ update_host ∷ delete_host ∷ list_host_vms ∷ []

abbrev pub list_vms : Route
list_vms = route get (lit "virt" ∷ lit "vms" ∷ []) paged (some 100)

abbrev pub create_vm : Route
create_vm = route post (lit "virt" ∷ lit "vms" ∷ []) single none

abbrev pub get_vm : Route
get_vm = route get (lit "virt" ∷ lit "vms" ∷ var ∷ []) single none

abbrev pub update_vm : Route
update_vm = route put (lit "virt" ∷ lit "vms" ∷ var ∷ []) single none

abbrev pub delete_vm : Route
delete_vm = route delete (lit "virt" ∷ lit "vms" ∷ var ∷ []) empty none

abbrev pub virt_vms_router : List Route
virt_vms_router = list_vms ∷ create_vm ∷ get_vm ∷ update_vm ∷ delete_vm ∷ []

abbrev pub list_datastores : Route
list_datastores = route get (lit "virt" ∷ lit "datastores" ∷ []) paged (some 100)

abbrev pub create_datastore : Route
create_datastore = route post (lit "virt" ∷ lit "datastores" ∷ []) single none

abbrev pub get_datastore : Route
get_datastore = route get (lit "virt" ∷ lit "datastores" ∷ var ∷ []) single none

abbrev pub update_datastore : Route
update_datastore = route put (lit "virt" ∷ lit "datastores" ∷ var ∷ []) single none

abbrev pub delete_datastore : Route
delete_datastore = route delete (lit "virt" ∷ lit "datastores" ∷ var ∷ []) empty none

abbrev pub datastores_router : List Route
datastores_router =
    list_datastores ∷ create_datastore ∷ get_datastore ∷ update_datastore ∷ delete_datastore ∷ []
