-- ===== src/Api/Routes/Devices.antt =====
-- The routes of backend/app/api/v1/endpoints that the hooks of Api/Devices are meant for.
use datacenter_manager.Prelude.{none, some, List, [], ◌∷◌}
use datacenter_manager.Api.{get, post, put, delete, paged, single, empty}
use datacenter_manager.Api.Routes.Pattern.{Route, lit, var, route}

abbrev pub list_devices : Route
list_devices = route get (lit "devices" ∷ []) paged (some 100)

abbrev pub create_device : Route
create_device = route post (lit "devices" ∷ []) single none

abbrev pub get_device : Route
get_device = route get (lit "devices" ∷ var ∷ []) single none

abbrev pub update_device : Route
update_device = route put (lit "devices" ∷ var ∷ []) single none

abbrev pub delete_device : Route
delete_device = route delete (lit "devices" ∷ var ∷ []) empty none

abbrev pub get_server_detail : Route
get_server_detail = route get (lit "devices" ∷ var ∷ lit "server-detail" ∷ []) single none

abbrev pub upsert_server_detail : Route
upsert_server_detail = route put (lit "devices" ∷ var ∷ lit "server-detail" ∷ []) single none

abbrev pub get_network_detail : Route
get_network_detail = route get (lit "devices" ∷ var ∷ lit "network-detail" ∷ []) single none

abbrev pub upsert_network_detail : Route
upsert_network_detail = route put (lit "devices" ∷ var ∷ lit "network-detail" ∷ []) single none

abbrev pub get_pdu_detail : Route
get_pdu_detail = route get (lit "devices" ∷ var ∷ lit "pdu-detail" ∷ []) single none

abbrev pub upsert_pdu_detail : Route
upsert_pdu_detail = route put (lit "devices" ∷ var ∷ lit "pdu-detail" ∷ []) single none

abbrev pub trigger_device_sync : Route
trigger_device_sync = route post (lit "devices" ∷ var ∷ lit "sync" ∷ []) empty none

abbrev pub devices_router : List Route
devices_router =
    list_devices ∷ create_device ∷ get_device ∷ update_device ∷ delete_device ∷ get_server_detail
    ∷ upsert_server_detail ∷ get_network_detail ∷ upsert_network_detail ∷ get_pdu_detail
    ∷ upsert_pdu_detail ∷ trigger_device_sync ∷ []

abbrev pub list_interfaces : Route
list_interfaces = route get (lit "interfaces" ∷ []) paged (some 100)

abbrev pub create_interface : Route
create_interface = route post (lit "interfaces" ∷ []) single none

abbrev pub get_interface : Route
get_interface = route get (lit "interfaces" ∷ var ∷ []) single none

abbrev pub update_interface : Route
update_interface = route put (lit "interfaces" ∷ var ∷ []) single none

abbrev pub delete_interface : Route
delete_interface = route delete (lit "interfaces" ∷ var ∷ []) empty none

abbrev pub interfaces_router : List Route
interfaces_router =
    list_interfaces ∷ create_interface ∷ get_interface ∷ update_interface ∷ delete_interface ∷ []
