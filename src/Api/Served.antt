-- ===== src/Api/Served.antt =====
-- What the server has for each query of a hook.
use datacenter_manager.Prelude.{
  String, Bool, Option, none, some, List, [], ◌∷◌, ◌≡◌, ◌⊎◌, inl, inr, refl, any, if◌then◌else◌,
  arith, lookup,
}
use datacenter_manager.Api.{Params, Request, Query, Shape, paged, single}
use datacenter_manager.Api.Routes.Pattern.{Segment, lit, var}
use datacenter_manager.Api.Hooks.{
  IsList, IsItem, IsPart, IsTopologyQuery, IsQuery, list, item, part,
}
use datacenter_manager.Api.Physical.{use_room_corridors, use_corridor_racks}
use datacenter_manager.Api.Devices.{use_chassis_blades, use_device_power_readings}
use datacenter_manager.Api.Services.{use_audit_logs, use_integration_sync_logs}
use datacenter_manager.Api.Server.{Server, fits, response_of, sent_size, not_found, unprocessable}

-- Paths that a query asks for and no route has.
abbrev missing_paths : List (List Segment)
missing_paths =
    (lit "audit" ∷ [])
    ∷ (lit "devices" ∷ var ∷ lit "power-readings" ∷ [])
    ∷ (lit "integrations" ∷ var ∷ lit "sync-logs" ∷ [])
    ∷ []

abbrev pub is_missing : Request → Bool
is_missing r = any (λ p. fits p r.path) missing_paths

-- The shape of the answer: what the query takes it for, but for two paths that it takes for arrays.
abbrev pub actual_shape : Query → Shape
actual_shape q =
    if fits (lit "licenses" ∷ lit "expiring" ∷ []) q.request.path
    then paged
    else if fits (lit "ip-addresses" ∷ lit "available" ∷ []) q.request.path
    then single
    else q.expects

abbrev pub answered_shape : Query → Option Shape
answered_shape q = if is_missing q.request then none else some (actual_shape q)

list_answered :
    {f : Option Params → Query}
    → IsList f
    → (p : Option Params) → response_of (f p).request ≡ answered_shape (f p)
list_answered IsList.rooms p = refl
list_answered IsList.corridors p = refl
list_answered IsList.racks p = refl
list_answered IsList.devices p = refl
list_answered IsList.interfaces p = refl
list_answered IsList.links p = refl
list_answered IsList.lag_groups p = refl
list_answered IsList.vlans p = refl
list_answered IsList.ip_networks p = refl
list_answered IsList.ip_addresses p = refl
list_answered IsList.san_fabrics p = refl
list_answered IsList.virt_clusters p = refl
list_answered IsList.virt_hosts p = refl
list_answered IsList.vms p = refl
list_answered IsList.datastores p = refl
list_answered IsList.licenses p = refl
list_answered IsList.integrations p = refl
list_answered IsList.users p = refl
list_answered IsList.alerts p = refl
list_answered IsList.audit_logs p = refl

item_answered :
    {f : String → Query}
    → IsItem f
    → (id : String) → response_of (f id).request ≡ answered_shape (f id)
item_answered IsItem.data_center id = refl
item_answered IsItem.room id = refl
item_answered IsItem.corridor id = refl
item_answered IsItem.rack id = refl
item_answered IsItem.device id = refl
item_answered IsItem.interface id = refl
item_answered IsItem.vlan id = refl
item_answered IsItem.ip_network id = refl
item_answered IsItem.ip_address id = ground arith
item_answered IsItem.san_fabric id = refl
item_answered IsItem.virt_cluster id = refl
item_answered IsItem.virt_host id = refl
item_answered IsItem.vm id = refl
item_answered IsItem.license id = ground arith
item_answered IsItem.integration id = refl
item_answered IsItem.user id = refl

part_answered : {q : Query} → IsPart q → response_of q.request ≡ answered_shape q
part_answered (IsPart.data_centers page size) = refl
part_answered (IsPart.room_corridors room_id) = refl
part_answered (IsPart.corridor_racks corridor_id) = refl
part_answered (IsPart.rack_devices id) = refl
part_answered (IsPart.rack_power_summary id) = refl
part_answered IsPart.device_types = refl
part_answered (IsPart.device_power_readings id) = refl
part_answered (IsPart.chassis_blades chassis_id) = refl
part_answered (IsPart.available_ips subnet_id) = refl
part_answered (IsPart.expiring_licenses days) = refl
part_answered (IsPart.integration_sync_logs id) = refl
part_answered IsPart.alert_summary = refl
part_answered IsPart.dashboard_summary = refl
part_answered IsPart.dashboard_alerts = refl
part_answered IsPart.dashboard_capacity = refl
part_answered (IsPart.search trim q) = refl
part_answered IsPart.datacenters = refl
part_answered (IsPart.blades_of_chassis chassis_id) = refl

topology_answered : {q : Query} → IsTopologyQuery q → response_of q.request ≡ answered_shape q
topology_answered (IsTopologyQuery.physical_topology datacenter_id) = refl
topology_answered (IsTopologyQuery.network_topology datacenter_id vlan_id) = refl
topology_answered (IsTopologyQuery.floor_plan datacenter_id) = refl
topology_answered (IsTopologyQuery.rack_elevation rack_id) = refl
topology_answered (IsTopologyQuery.hop_path from to) = refl

response_of-query :
    (q : Query) → IsQuery q ⊎ IsTopologyQuery q → response_of q.request ≡ answered_shape q
response_of-query q (inl (list f p)) = list_answered f p
response_of-query q (inl (item f id)) = item_answered f id
response_of-query q (inl (part h)) = part_answered h
response_of-query q (inr h) = topology_answered h

-- The queries of a part that ask for more rows than their route allows, whatever they are for.
pub data AsksTooMany : Query → Type 0 where
  room_corridors : (room_id : String) → AsksTooMany (use_room_corridors room_id)
  corridor_racks : (corridor_id : String) → AsksTooMany (use_corridor_racks corridor_id)
  chassis_blades : (chassis_id : Option String) → AsksTooMany (use_chassis_blades chassis_id)

refused : (s : Server) {q : Query} → AsksTooMany q → s.answer q.request ≡ unprocessable
unfolding sent_size lookup
refused s (room_corridors room_id) = s.too_large _ _ 100 200 refl refl refl (omega arith)
refused s (corridor_racks corridor_id) = s.too_large _ _ 100 200 refl refl refl (omega arith)
refused s (chassis_blades none) = s.too_large _ _ 100 200 refl refl refl (omega arith)
refused s (chassis_blades (some id)) = s.too_large _ _ 100 200 refl refl refl (omega arith)

-- The queries for a path without a route.
pub data LacksRoute : Query → Type 0 where
  audit_logs : (p : Option Params) → LacksRoute (use_audit_logs p)
  power_readings : (id : String) → LacksRoute (use_device_power_readings id)
  sync_logs : (id : String) → LacksRoute (use_integration_sync_logs id)

unserved : (s : Server) {q : Query} → LacksRoute q → s.answer q.request ≡ not_found
unserved s (audit_logs p) = s.unknown_path _ refl
unserved s (power_readings id) = s.unknown_path _ refl
unserved s (sync_logs id) = s.unknown_path _ refl

-- What the route of a query declares as the answer to a request that it accepts has the shape that the
-- code takes it for, but for three paths that no route has, whose queries are answered with 404, and
-- for the expiring licenses and the available addresses, which the code takes for arrays and which are
-- a page and one object. The corridors of a room, the racks of a corridor and the blades of a chassis
-- in the device list are never accepted: their 200 rows are refused with 422.
pub answer-query :
    (s : Server) (q : Query)
    → IsQuery q ⊎ IsTopologyQuery q
    → (response_of q.request ≡ answered_shape q)
      × (LacksRoute q → s.answer q.request ≡ not_found)
      × (AsksTooMany q → s.answer q.request ≡ unprocessable)
answer-query s q h = (response_of-query q h, unserved s, refused s)
