-- ===== src/Api/Routes/Network.antt =====
-- The routes of backend/app/api/v1/endpoints that the hooks of Api/Network are meant for.
use datacenter_manager.Prelude.{none, some, List, [], ◌∷◌}
use datacenter_manager.Api.{get, post, put, delete, paged, single, empty}
use datacenter_manager.Api.Routes.Pattern.{Route, lit, var, route}

abbrev pub list_links : Route
list_links = route get (lit "links" ∷ []) paged (some 100)

abbrev pub create_link : Route
create_link = route post (lit "links" ∷ []) single none

abbrev pub get_link : Route
get_link = route get (lit "links" ∷ var ∷ []) single none

abbrev pub update_link : Route
update_link = route put (lit "links" ∷ var ∷ []) single none

abbrev pub delete_link : Route
delete_link = route delete (lit "links" ∷ var ∷ []) empty none

abbrev pub links_router : List Route
links_router = list_links ∷ create_link ∷ get_link ∷ update_link ∷ delete_link ∷ []

abbrev pub list_lag_groups : Route
list_lag_groups = route get (lit "lag-groups" ∷ []) paged (some 100)

abbrev pub create_lag_group : Route
create_lag_group = route post (lit "lag-groups" ∷ []) single none

abbrev pub get_lag_group : Route
get_lag_group = route get (lit "lag-groups" ∷ var ∷ []) single none

abbrev pub update_lag_group : Route
update_lag_group = route put (lit "lag-groups" ∷ var ∷ []) single none

abbrev pub delete_lag_group : Route
delete_lag_group = route delete (lit "lag-groups" ∷ var ∷ []) empty none

abbrev pub lag_router : List Route
lag_router =
    list_lag_groups ∷ create_lag_group ∷ get_lag_group ∷ update_lag_group ∷ delete_lag_group ∷ []

abbrev pub list_vlans : Route
list_vlans = route get (lit "vlans" ∷ []) paged (some 100)

abbrev pub create_vlan : Route
create_vlan = route post (lit "vlans" ∷ []) single none

abbrev pub get_vlan : Route
get_vlan = route get (lit "vlans" ∷ var ∷ []) single none

abbrev pub update_vlan : Route
update_vlan = route put (lit "vlans" ∷ var ∷ []) single none

abbrev pub delete_vlan : Route
delete_vlan = route delete (lit "vlans" ∷ var ∷ []) empty none

abbrev pub vlans_router : List Route
vlans_router = list_vlans ∷ create_vlan ∷ get_vlan ∷ update_vlan ∷ delete_vlan ∷ []

abbrev pub list_ip_networks : Route
list_ip_networks = route get (lit "ip-networks" ∷ []) paged (some 100)

abbrev pub create_ip_network : Route
create_ip_network = route post (lit "ip-networks" ∷ []) single none

abbrev pub get_ip_network : Route
get_ip_network = route get (lit "ip-networks" ∷ var ∷ []) single none

abbrev pub update_ip_network : Route
update_ip_network = route put (lit "ip-networks" ∷ var ∷ []) single none

abbrev pub delete_ip_network : Route
delete_ip_network = route delete (lit "ip-networks" ∷ var ∷ []) empty none

abbrev pub list_addresses_in_network : Route
list_addresses_in_network =
    route get (lit "ip-networks" ∷ var ∷ lit "addresses" ∷ []) paged (some 100)

abbrev pub ip_networks_router : List Route
ip_networks_router =
    list_ip_networks ∷ create_ip_network ∷ get_ip_network ∷ update_ip_network ∷ delete_ip_network
    ∷ list_addresses_in_network ∷ []

abbrev pub get_available_ips : Route
get_available_ips = route get (lit "ip-addresses" ∷ lit "available" ∷ []) single none

abbrev pub scan_subnet : Route
scan_subnet = route post (lit "ip-addresses" ∷ lit "scan" ∷ []) single none

abbrev pub get_scan_job : Route
get_scan_job = route get (lit "ip-addresses" ∷ lit "scan" ∷ var ∷ []) single none

abbrev pub list_ip_addresses : Route
list_ip_addresses = route get (lit "ip-addresses" ∷ []) paged (some 100)

abbrev pub create_ip_address : Route
create_ip_address = route post (lit "ip-addresses" ∷ []) single none

abbrev pub get_ip_address : Route
get_ip_address = route get (lit "ip-addresses" ∷ var ∷ []) single none

abbrev pub update_ip_address : Route
update_ip_address = route put (lit "ip-addresses" ∷ var ∷ []) single none

abbrev pub delete_ip_address : Route
delete_ip_address = route delete (lit "ip-addresses" ∷ var ∷ []) empty none

abbrev pub ip_addresses_router : List Route
ip_addresses_router =
    get_available_ips ∷ scan_subnet ∷ get_scan_job ∷ list_ip_addresses ∷ create_ip_address
    ∷ get_ip_address ∷ update_ip_address ∷ delete_ip_address ∷ []

abbrev pub list_san_fabrics : Route
list_san_fabrics = route get (lit "san-fabrics" ∷ []) paged (some 100)

abbrev pub create_san_fabric : Route
create_san_fabric = route post (lit "san-fabrics" ∷ []) single none

abbrev pub get_san_fabric : Route
get_san_fabric = route get (lit "san-fabrics" ∷ var ∷ []) single none

abbrev pub update_san_fabric : Route
update_san_fabric = route put (lit "san-fabrics" ∷ var ∷ []) single none

abbrev pub delete_san_fabric : Route
delete_san_fabric = route delete (lit "san-fabrics" ∷ var ∷ []) empty none

abbrev pub san_fabrics_router : List Route
san_fabrics_router =
    list_san_fabrics ∷ create_san_fabric ∷ get_san_fabric ∷ update_san_fabric ∷ delete_san_fabric
    ∷ []
