-- ===== src/Api/Devices.antt =====
-- The hooks of frontend/src/api: devices.ts and interfaces.ts.
use datacenter_manager.Prelude.{String, Option, some, [], ◌∷◌, ◌++◌}
use datacenter_manager.Api.{
  Params, Query, Mutation, fetch, send, given?, name?, text?, list_query, item_query, part_query,
  create, update, remove, put, patch, name, number, paged, listed,
}
use datacenter_manager.DeviceEditor.Body.{Body}

-- The three hooks that write an extension table.
abbrev upsert : String → String → Body → Mutation
upsert part device_id body = record {
  request = send put ("devices" ∷ device_id ∷ part ∷ []) (some body);
  invalidates = (name "devices" ∷ name device_id ∷ []) ∷ [];
}

-- devices.ts
abbrev pub use_devices : Option Params → Query
use_devices params = list_query "devices" ("devices" ∷ []) 100 params

abbrev pub use_device : String → Query
use_device id = item_query "devices" ("devices" ∷ []) id

abbrev pub use_device_power_readings : String → Query
use_device_power_readings id = part_query "devices" id "power" "power-readings" listed

abbrev pub use_create_device : Body → Mutation
use_create_device body = create "devices" ("devices" ∷ []) body

abbrev pub use_update_device : String → Body → Mutation
use_update_device id body = update "devices" put ("devices" ∷ []) id body

abbrev pub use_delete_device : String → Mutation
use_delete_device id = remove "devices" ("devices" ∷ []) id

abbrev pub use_chassis_blades : Option String → Query
use_chassis_blades chassis_id = record {
  key = name "devices" ∷ name "chassis-blades" ∷ name? chassis_id ∷ [];
  request =
      fetch ("devices" ∷ []) (text? "blade_chassis_id" chassis_id ++ ("size", number 200) ∷ []);
  expects = paged;
  enabled = given? chassis_id;
}

abbrev pub use_upsert_server_detail : String → Body → Mutation
use_upsert_server_detail device_id body = upsert "server-detail" device_id body

abbrev pub use_upsert_network_detail : String → Body → Mutation
use_upsert_network_detail device_id body = upsert "network-detail" device_id body

abbrev pub use_upsert_pdu_detail : String → Body → Mutation
use_upsert_pdu_detail device_id body = upsert "pdu-detail" device_id body

-- interfaces.ts
abbrev pub use_interfaces : Option Params → Query
use_interfaces params = list_query "interfaces" ("interfaces" ∷ []) 200 params

abbrev pub use_interface : String → Query
use_interface id = item_query "interfaces" ("interfaces" ∷ []) id

abbrev pub use_create_interface : Body → Mutation
use_create_interface body = create "interfaces" ("interfaces" ∷ []) body

abbrev pub use_update_interface : String → Body → Mutation
use_update_interface id body = update "interfaces" patch ("interfaces" ∷ []) id body

abbrev pub use_delete_interface : String → Mutation
use_delete_interface id = remove "interfaces" ("interfaces" ∷ []) id
