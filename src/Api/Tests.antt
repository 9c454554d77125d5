-- ===== src/Api/Tests.antt =====
-- Single hooks, with the server and the matching of Api/Sample.
use datacenter_manager.Prelude.{true, false, none, some, [], ◌≡◌, inl, refl, str_eq, arith}
use datacenter_manager.Api.{paged}
use datacenter_manager.Api.Server.{method_not_allowed, not_found, unprocessable}
use datacenter_manager.Api.Hooks.{IsList, IsPart, IsUpdate, IsCreate, list, part, updates, creates}
use datacenter_manager.Api.Network.{use_vlans, use_update_vlan}
use datacenter_manager.Api.Services.{use_expiring_licenses}
use datacenter_manager.Api.Physical.{use_create_rack, use_racks, use_room_corridors}
use datacenter_manager.Api.Served.{answered_shape, LacksRoute, AsksTooMany, answer-query}
use datacenter_manager.Api.Server.{response_of}
use datacenter_manager.Api.Methods.{is_refused, has_route, answer-mutation}
use datacenter_manager.Api.Sizes.{answer-list}
use datacenter_manager.Api.Refresh.{refreshes, resource_of, refreshes-resource}
use datacenter_manager.Api.Drops.{Refreshes, after_put-Refreshes}
use datacenter_manager.Elevation.RackDiagram as RackDiagram
use datacenter_manager.Elevation.RoomRackView as RoomRackView
use datacenter_manager.Elevation.RackElevation as RackElevation
use datacenter_manager.Elevation.FloorPlanRackPanel as FloorPlanRackPanel
use datacenter_manager.Api.Sample.{server, library}

answer-query_example :
    (response_of (use_room_corridors "1").request ≡ answered_shape (use_room_corridors "1"))
    × (LacksRoute (use_room_corridors "1")
        → server.answer (use_room_corridors "1").request ≡ not_found)
    × (AsksTooMany (use_room_corridors "1")
        → server.answer (use_room_corridors "1").request ≡ unprocessable)
answer-query_example =
    answer-query server (use_room_corridors "1") (inl (part (IsPart.room_corridors "1")))

corridors_refused : server.answer (use_room_corridors "1").request ≡ unprocessable
corridors_refused = answer-query_example.2 (AsksTooMany.room_corridors "1")

a_page_of_licenses : answered_shape (use_expiring_licenses 90) ≡ some paged
a_page_of_licenses = refl

answer-mutation_example :
    (is_refused (use_update_vlan "7" []).request ≡ true
      → server.answer (use_update_vlan "7" []).request ≡ method_not_allowed)
    × (is_refused (use_update_vlan "7" []).request ≡ false
        → has_route (use_update_vlan "7" []).request ≡ true)
answer-mutation_example =
    answer-mutation server (use_update_vlan "7" []) (inl (updates IsUpdate.update_vlan "7" []))

answer-list_example : server.answer (use_vlans none).request ≡ unprocessable
answer-list_example = answer-list server use_vlans IsList.vlans none 100 200 refl refl (omega arith)

refreshes-resource_example :
    refreshes library (use_create_rack []) (use_racks none)
    ≡ str_eq (resource_of (use_create_rack []).request) (resource_of (use_racks none).request)
refreshes-resource_example =
    refreshes-resource library (use_create_rack []) (use_racks none)
      (creates IsCreate.create_rack []) (list IsList.racks none)

after_put-Refreshes_example :
    Refreshes library "r" none none RackDiagram.widget true true false
    × Refreshes library "r" none none RoomRackView.widget true true false
    × Refreshes library "r" none none RackElevation.widget true false true
    × Refreshes library "r" none none FloorPlanRackPanel.widget true false true
after_put-Refreshes_example = after_put-Refreshes library "r" none none
