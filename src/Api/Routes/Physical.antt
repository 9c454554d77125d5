-- ===== src/Api/Routes/Physical.antt =====
-- The routes of backend/app/api/v1/endpoints that the hooks of Api/Physical are meant for.
use datacenter_manager.Prelude.{none, some, List, [], ◌∷◌}
use datacenter_manager.Api.{get, post, put, delete, paged, listed, single, empty}
use datacenter_manager.Api.Routes.Pattern.{Route, lit, var, route}

abbrev pub list_device_types : Route
list_device_types = route get (lit "device-types" ∷ []) listed none

abbrev pub create_device_type : Route
create_device_type = route post (lit "device-types" ∷ []) single none

abbrev pub get_device_type : Route
get_device_type = route get (lit "device-types" ∷ var ∷ []) single none

abbrev pub update_device_type : Route
update_device_type = route put (lit "device-types" ∷ var ∷ []) single none

abbrev pub delete_device_type : Route
delete_device_type = route delete (lit "device-types" ∷ var ∷ []) empty none

abbrev pub device_types_router : List Route
device_types_router =
    list_device_types ∷ create_device_type ∷ get_device_type ∷ update_device_type
    ∷ delete_device_type ∷ []

abbrev pub list_datacenters : Route
list_datacenters = route get (lit "datacenters" ∷ []) paged (some 100)

abbrev pub create_datacenter : Route
create_datacenter = route post (lit "datacenters" ∷ []) single none

abbrev pub get_datacenter : Route
get_datacenter = route get (lit "datacenters" ∷ var ∷ []) single none

abbrev pub update_datacenter : Route
update_datacenter = route put (lit "datacenters" ∷ var ∷ []) single none

abbrev pub delete_datacenter : Route
delete_datacenter = route delete (lit "datacenters" ∷ var ∷ []) empty none

abbrev pub list_datacenter_rooms : Route
list_datacenter_rooms = route get (lit "datacenters" ∷ var ∷ lit "rooms" ∷ []) paged (some 100)

abbrev pub datacenters_router : List Route
datacenters_router =
    list_datacenters ∷ create_datacenter ∷ get_datacenter ∷ update_datacenter ∷ delete_datacenter
    ∷ list_datacenter_rooms ∷ []

abbrev pub list_rooms : Route
list_rooms = route get (lit "rooms" ∷ []) paged (some 100)

abbrev pub create_room : Route
create_room = route post (lit "rooms" ∷ []) single none

abbrev pub get_room : Route
get_room = route get (lit "rooms" ∷ var ∷ []) single none

abbrev pub update_room : Route
update_room = route put (lit "rooms" ∷ var ∷ []) single none

abbrev pub delete_room : Route
delete_room = route delete (lit "rooms" ∷ var ∷ []) empty none

abbrev pub list_room_corridors : Route
list_room_corridors = route get (lit "rooms" ∷ var ∷ lit "corridors" ∷ []) paged (some 100)

abbrev pub rooms_router : List Route
rooms_router =
    list_rooms ∷ create_room ∷ get_room ∷ update_room ∷ delete_room ∷ list_room_corridors ∷ []

abbrev pub list_corridors : Route
list_corridors = route get (lit "corridors" ∷ []) paged (some 100)

abbrev pub create_corridor : Route
create_corridor = route post (lit "corridors" ∷ []) single none

abbrev pub get_corridor : Route
get_corridor = route get (lit "corridors" ∷ var ∷ []) single none

abbrev pub update_corridor : Route
update_corridor = route put (lit "corridors" ∷ var ∷ []) single none

abbrev pub delete_corridor : Route
delete_corridor = route delete (lit "corridors" ∷ var ∷ []) empty none

abbrev pub list_corridor_racks : Route
list_corridor_racks = route get (lit "corridors" ∷ var ∷ lit "racks" ∷ []) paged (some 100)

abbrev pub corridors_router : List Route
corridors_router =
    list_corridors ∷ create_corridor ∷ get_corridor ∷ update_corridor ∷ delete_corridor
    ∷ list_corridor_racks ∷ []

abbrev pub list_racks : Route
list_racks = route get (lit "racks" ∷ []) paged (some 100)

abbrev pub create_rack : Route
create_rack = route post (lit "racks" ∷ []) single none

abbrev pub get_rack : Route
get_rack = route get (lit "racks" ∷ var ∷ []) single none

abbrev pub update_rack : Route
update_rack = route put (lit "racks" ∷ var ∷ []) single none

abbrev pub delete_rack : Route
delete_rack = route delete (lit "racks" ∷ var ∷ []) empty none

abbrev pub list_rack_devices : Route
list_rack_devices = route get (lit "racks" ∷ var ∷ lit "devices" ∷ []) listed none

abbrev pub rack_power_summary : Route
rack_power_summary = route get (lit "racks" ∷ var ∷ lit "power-summary" ∷ []) single none

abbrev pub rack_elevation : Route
rack_elevation = route get (lit "racks" ∷ var ∷ lit "elevation" ∷ []) single none

abbrev pub racks_router : List Route
racks_router =
    list_racks ∷ create_rack ∷ get_rack ∷ update_rack ∷ delete_rack ∷ list_rack_devices
    ∷ rack_power_summary ∷ rack_elevation ∷ []
