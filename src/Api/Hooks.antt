-- ===== src/Api/Hooks.antt =====
-- All hooks of frontend/src/api but those of auth.ts, by their form.
use datacenter_manager.Prelude.{ℕ, String, Option}
use datacenter_manager.DeviceEditor.Body.{Body}
use datacenter_manager.Api.{Params, Query, Mutation}
use datacenter_manager.Api.Physical.{
  use_data_centers, use_data_center, use_rooms, use_room, use_room_corridors, use_corridors,
  use_corridor, use_corridor_racks, use_racks, use_rack, use_rack_devices, use_rack_power_summary,
  use_device_types, use_create_data_center, use_update_data_center, use_delete_data_center,
  use_create_room, use_update_room, use_delete_room, use_create_corridor, use_update_corridor,
  use_delete_corridor, use_create_rack, use_update_rack, use_delete_rack, use_create_device_type,
  use_update_device_type, use_delete_device_type,
}
use datacenter_manager.Api.Devices.{
  use_devices, use_device, use_device_power_readings, use_chassis_blades, use_interfaces,
  use_interface, use_create_device, use_update_device, use_delete_device, use_upsert_server_detail,
  use_upsert_network_detail, use_upsert_pdu_detail, use_create_interface, use_update_interface,
  use_delete_interface,
}
use datacenter_manager.Api.Network.{
  use_links, use_lag_groups, use_vlans, use_vlan, use_ip_networks, use_ip_network, use_ip_addresses,
  use_ip_address, use_available_ips, use_san_fabrics, use_san_fabric, use_create_link,
  use_update_link, use_delete_link, use_create_lag_group, use_delete_lag_group, use_create_vlan,
  use_update_vlan, use_delete_vlan, use_create_ip_network, use_update_ip_network,
  use_delete_ip_network, use_create_ip_address, use_update_ip_address, use_delete_ip_address,
  use_create_san_fabric, use_update_san_fabric, use_delete_san_fabric,
}
use datacenter_manager.Api.Virtual.{
  use_virt_clusters, use_virt_cluster, use_virt_hosts, use_virt_host, use_vms, use_vm,
  use_datastores, use_create_virt_cluster, use_update_virt_cluster, use_delete_virt_cluster,
  use_create_virt_host, use_update_virt_host, use_delete_virt_host, use_create_vm, use_update_vm,
  use_delete_vm, use_create_datastore, use_delete_datastore,
}
use datacenter_manager.Api.Services.{
  use_licenses, use_expiring_licenses, use_license, use_integrations, use_integration,
  use_integration_sync_logs, use_users, use_user, use_alerts, use_alert_summary, use_audit_logs,
  use_dashboard_summary, use_dashboard_alerts, use_dashboard_capacity, use_search,
  use_create_license, use_update_license, use_delete_license, use_create_integration,
  use_update_integration, use_delete_integration, use_trigger_sync, use_create_user,
  use_update_user, use_reset_user_password, use_acknowledge_alert,
}
use datacenter_manager.Api.Topology.{
  use_datacenters, use_physical_topology, use_network_topology, use_floor_plan, use_rack_elevation,
  use_blades_of_chassis, use_hop_path,
}

-- Of `(params)`, `(id)`, `(body)` and so on.
pub data IsList : (Option Params → Query) → Type 0 where
  rooms : IsList use_rooms
  corridors : IsList use_corridors
  racks : IsList use_racks
  devices : IsList use_devices
  interfaces : IsList use_interfaces
  links : IsList use_links
  lag_groups : IsList use_lag_groups
  vlans : IsList use_vlans
  ip_networks : IsList use_ip_networks
  ip_addresses : IsList use_ip_addresses
  san_fabrics : IsList use_san_fabrics
  virt_clusters : IsList use_virt_clusters
  virt_hosts : IsList use_virt_hosts
  vms : IsList use_vms
  datastores : IsList use_datastores
  licenses : IsList use_licenses
  integrations : IsList use_integrations
  users : IsList use_users
  alerts : IsList use_alerts
  audit_logs : IsList use_audit_logs

pub data IsItem : (String → Query) → Type 0 where
  data_center : IsItem use_data_center
  room : IsItem use_room
  corridor : IsItem use_corridor
  rack : IsItem use_rack
  device : IsItem use_device
  interface : IsItem use_interface
  vlan : IsItem use_vlan
  ip_network : IsItem use_ip_network
  ip_address : IsItem use_ip_address
  san_fabric : IsItem use_san_fabric
  virt_cluster : IsItem use_virt_cluster
  virt_host : IsItem use_virt_host
  vm : IsItem use_vm
  license : IsItem use_license
  integration : IsItem use_integration
  user : IsItem use_user

-- The other queries, but for those of the topology.
pub data IsPart : Query → Type 0 where
  data_centers : (page size : ℕ) → IsPart (use_data_centers page size)
  room_corridors : (room_id : String) → IsPart (use_room_corridors room_id)
  corridor_racks : (corridor_id : String) → IsPart (use_corridor_racks corridor_id)
  rack_devices : (id : String) → IsPart (use_rack_devices id)
  rack_power_summary : (id : String) → IsPart (use_rack_power_summary id)
  device_types : IsPart use_device_types
  device_power_readings : (id : String) → IsPart (use_device_power_readings id)
  chassis_blades : (chassis_id : Option String) → IsPart (use_chassis_blades chassis_id)
  available_ips : (subnet_id : String) → IsPart (use_available_ips subnet_id)
  expiring_licenses : (days : ℕ) → IsPart (use_expiring_licenses days)
  integration_sync_logs : (id : String) → IsPart (use_integration_sync_logs id)
  alert_summary : IsPart use_alert_summary
  dashboard_summary : IsPart use_dashboard_summary
  dashboard_alerts : IsPart use_dashboard_alerts
  dashboard_capacity : IsPart use_dashboard_capacity
  search : (trim : String → String) (q : String) → IsPart (use_search trim q)
  datacenters : IsPart use_datacenters
  blades_of_chassis : (chassis_id : Option String) → IsPart (use_blades_of_chassis chassis_id)

pub data IsTopologyQuery : Query → Type 0 where
  physical_topology :
      (datacenter_id : Option String) → IsTopologyQuery (use_physical_topology datacenter_id)
  network_topology :
      (datacenter_id : Option String) (vlan_id : Option ℕ)
      → IsTopologyQuery (use_network_topology datacenter_id vlan_id)
  floor_plan : (datacenter_id : Option String) → IsTopologyQuery (use_floor_plan datacenter_id)
  rack_elevation : (rack_id : Option String) → IsTopologyQuery (use_rack_elevation rack_id)
  hop_path : (from to : Option String) → IsTopologyQuery (use_hop_path from to)

pub data IsCreate : (Body → Mutation) → Type 0 where
  create_data_center : IsCreate use_create_data_center
  create_room : IsCreate use_create_room
  create_corridor : IsCreate use_create_corridor
  create_rack : IsCreate use_create_rack
  create_device_type : IsCreate use_create_device_type
  create_device : IsCreate use_create_device
  create_interface : IsCreate use_create_interface
  create_link : IsCreate use_create_link
  create_lag_group : IsCreate use_create_lag_group
  create_vlan : IsCreate use_create_vlan
  create_ip_network : IsCreate use_create_ip_network
  create_ip_address : IsCreate use_create_ip_address
  create_san_fabric : IsCreate use_create_san_fabric
  create_virt_cluster : IsCreate use_create_virt_cluster
  create_virt_host : IsCreate use_create_virt_host
  create_vm : IsCreate use_create_vm
  create_datastore : IsCreate use_create_datastore
  create_license : IsCreate use_create_license
  create_integration : IsCreate use_create_integration
  create_user : IsCreate use_create_user

pub data IsUpdate : (String → Body → Mutation) → Type 0 where
  update_data_center : IsUpdate use_update_data_center
  update_room : IsUpdate use_update_room
  update_corridor : IsUpdate use_update_corridor
  update_rack : IsUpdate use_update_rack
  update_device_type : IsUpdate use_update_device_type
  update_device : IsUpdate use_update_device
  update_interface : IsUpdate use_update_interface
  update_link : IsUpdate use_update_link
  update_vlan : IsUpdate use_update_vlan
  update_ip_network : IsUpdate use_update_ip_network
  update_ip_address : IsUpdate use_update_ip_address
  update_san_fabric : IsUpdate use_update_san_fabric
  update_virt_cluster : IsUpdate use_update_virt_cluster
  update_virt_host : IsUpdate use_update_virt_host
  update_vm : IsUpdate use_update_vm
  update_license : IsUpdate use_update_license
  update_integration : IsUpdate use_update_integration
  update_user : IsUpdate use_update_user

pub data IsRemove : (String → Mutation) → Type 0 where
  delete_data_center : IsRemove use_delete_data_center
  delete_room : IsRemove use_delete_room
  delete_corridor : IsRemove use_delete_corridor
  delete_rack : IsRemove use_delete_rack
  delete_device_type : IsRemove use_delete_device_type
  delete_device : IsRemove use_delete_device
  delete_interface : IsRemove use_delete_interface
  delete_link : IsRemove use_delete_link
  delete_lag_group : IsRemove use_delete_lag_group
  delete_vlan : IsRemove use_delete_vlan
  delete_ip_network : IsRemove use_delete_ip_network
  delete_ip_address : IsRemove use_delete_ip_address
  delete_san_fabric : IsRemove use_delete_san_fabric
  delete_virt_cluster : IsRemove use_delete_virt_cluster
  delete_virt_host : IsRemove use_delete_virt_host
  delete_vm : IsRemove use_delete_vm
  delete_datastore : IsRemove use_delete_datastore
  delete_license : IsRemove use_delete_license
  delete_integration : IsRemove use_delete_integration
  acknowledge_alert : IsRemove use_acknowledge_alert

-- Those that do not invalidate all keys of a resource.
pub data IsDetail : Mutation → Type 0 where
  upsert_server_detail :
      (device_id : String) (body : Body) → IsDetail (use_upsert_server_detail device_id body)
  upsert_network_detail :
      (device_id : String) (body : Body) → IsDetail (use_upsert_network_detail device_id body)
  upsert_pdu_detail :
      (device_id : String) (body : Body) → IsDetail (use_upsert_pdu_detail device_id body)
  trigger_sync : (id : String) → IsDetail (use_trigger_sync id)
  reset_user_password :
      (id new_password : String) → IsDetail (use_reset_user_password id new_password)

pub data IsQuery : Query → Type 0 where
  list : {f : Option Params → Query} → IsList f → (params : Option Params) → IsQuery (f params)
  item : {f : String → Query} → IsItem f → (id : String) → IsQuery (f id)
  part : {q : Query} → IsPart q → IsQuery q

pub data IsMutation : Mutation → Type 0 where
  creates : {f : Body → Mutation} → IsCreate f → (body : Body) → IsMutation (f body)
  updates :
      {f : String → Body → Mutation}
      → IsUpdate f
      → (id : String) (body : Body) → IsMutation (f id body)
  removes : {f : String → Mutation} → IsRemove f → (id : String) → IsMutation (f id)
