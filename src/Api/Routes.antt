-- ===== src/Api/Routes.antt =====
-- The routes of the server, from backend/app/api/v1/router.py and the decorators of its endpoints.
pub mod Pattern
pub mod Physical
pub mod Devices
pub mod Network
pub mod Virtual
pub mod Services
use datacenter_manager.Prelude.{List, ◌++◌}
use datacenter_manager.Api.Routes.Pattern.{Route}
use datacenter_manager.Api.Routes.Physical.{
  device_types_router, datacenters_router, rooms_router, corridors_router, racks_router,
}
use datacenter_manager.Api.Routes.Devices.{devices_router, interfaces_router}
use datacenter_manager.Api.Routes.Network.{
  links_router, lag_router, vlans_router, ip_networks_router, ip_addresses_router,
  san_fabrics_router,
}
use datacenter_manager.Api.Routes.Virtual.{
  virt_clusters_router, virt_hosts_router, virt_vms_router, datastores_router,
}
use datacenter_manager.Api.Routes.Services.{
  auth_router, users_router, licenses_router, integrations_router, topology_router,
  dashboard_router, alerts_router, search_router, audit_router,
}

abbrev pub api_router : List Route
api_router =
    auth_router
    ++ (users_router
        ++ (device_types_router
            ++ (datacenters_router
                ++ (rooms_router
                    ++ (corridors_router
                        ++ (racks_router
                            ++ (devices_router
                                ++ (licenses_router
                                    ++ (interfaces_router
                                        ++ (links_router
                                            ++ (lag_router
                                                ++ (vlans_router
                                                    ++ (ip_networks_router
                                                        ++ (ip_addresses_router
                                                            ++ (san_fabrics_router
                                                            ++ (virt_clusters_router
                                                            ++ (virt_hosts_router
                                                            ++ (virt_vms_router
                                                            ++ (datastores_router
                                                            ++ (integrations_router
                                                            ++ (topology_router
                                                            ++ (dashboard_router
                                                            ++ (alerts_router
                                                            ++ (search_router
                                                            ++ (audit_router)))))))))))))))))))))))))
