-- ===== src/Api/Physical.antt =====
-- The hooks of frontend/src/api: datacenters.ts, rooms.ts, corridors.ts, racks.ts and deviceTypes.ts.
use datacenter_manager.Prelude.{ℕ, String, true, Option, [], ◌∷◌}
use datacenter_manager.Api.{
  Params, Query, Mutation, fetch, is_given, default_params, list_query, item_query, part_query,
  create, update, remove, put, name, count, number, paged, listed, single,
}
use datacenter_manager.DeviceEditor.Body.{Body}

-- datacenters.ts
abbrev pub use_data_centers : ℕ → ℕ → Query
use_data_centers page size = record {
  key = name "datacenters" ∷ count page ∷ count size ∷ [];
  request = fetch ("datacenters" ∷ []) (("page", number page) ∷ ("size", number size) ∷ []);
  expects = paged;
  enabled = true;
}

abbrev pub use_data_center : String → Query
use_data_center id = item_query "datacenters" ("datacenters" ∷ []) id

abbrev pub use_create_data_center : Body → Mutation
use_create_data_center body = create "datacenters" ("datacenters" ∷ []) body

abbrev pub use_update_data_center : String → Body → Mutation
use_update_data_center id body = update "datacenters" put ("datacenters" ∷ []) id body

abbrev pub use_delete_data_center : String → Mutation
use_delete_data_center id = remove "datacenters" ("datacenters" ∷ []) id

-- rooms.ts
abbrev pub use_rooms : Option Params → Query
use_rooms params = list_query "rooms" ("rooms" ∷ []) 100 params

abbrev pub use_room : String → Query
use_room id = item_query "rooms" ("rooms" ∷ []) id

abbrev pub use_create_room : Body → Mutation
use_create_room body = create "rooms" ("rooms" ∷ []) body

abbrev pub use_update_room : String → Body → Mutation
use_update_room id body = update "rooms" put ("rooms" ∷ []) id body

abbrev pub use_room_corridors : String → Query
use_room_corridors room_id = record {
  key = name "rooms" ∷ name room_id ∷ name "corridors" ∷ [];
  request = fetch ("rooms" ∷ room_id ∷ "corridors" ∷ []) (default_params 200);
  expects = paged;
  enabled = is_given room_id;
}

abbrev pub use_delete_room : String → Mutation
use_delete_room id = remove "rooms" ("rooms" ∷ []) id

-- corridors.ts
abbrev pub use_corridors : Option Params → Query
use_corridors params = list_query "corridors" ("corridors" ∷ []) 200 params

abbrev pub use_corridor : String → Query
use_corridor id = item_query "corridors" ("corridors" ∷ []) id

abbrev pub use_corridor_racks : String → Query
use_corridor_racks corridor_id = record {
  key = name "corridors" ∷ name corridor_id ∷ name "racks" ∷ [];
  request = fetch ("corridors" ∷ corridor_id ∷ "racks" ∷ []) (default_params 200);
  expects = paged;
  enabled = is_given corridor_id;
}

abbrev pub use_create_corridor : Body → Mutation
use_create_corridor body = create "corridors" ("corridors" ∷ []) body

abbrev pub use_update_corridor : String → Body → Mutation
use_update_corridor id body = update "corridors" put ("corridors" ∷ []) id body

abbrev pub use_delete_corridor : String → Mutation
use_delete_corridor id = remove "corridors" ("corridors" ∷ []) id

-- racks.ts
abbrev pub use_racks : Option Params → Query
use_racks params = list_query "racks" ("racks" ∷ []) 100 params

abbrev pub use_rack : String → Query
use_rack id = item_query "racks" ("racks" ∷ []) id

abbrev pub use_rack_devices : String → Query
use_rack_devices id = part_query "racks" id "devices" "devices" listed

abbrev pub use_rack_power_summary : String → Query
use_rack_power_summary id = part_query "racks" id "power" "power-summary" single

abbrev pub use_create_rack : Body → Mutation
use_create_rack body = create "racks" ("racks" ∷ []) body

abbrev pub use_update_rack : String → Body → Mutation
use_update_rack id body = update "racks" put ("racks" ∷ []) id body

abbrev pub use_delete_rack : String → Mutation
use_delete_rack id = remove "racks" ("racks" ∷ []) id

-- deviceTypes.ts
abbrev pub use_device_types : Query
use_device_types = record {
  key = name "device-types" ∷ [];
  request = fetch ("device-types" ∷ []) [];
  expects = listed;
  enabled = true;
}

abbrev pub use_create_device_type : Body → Mutation
use_create_device_type body = create "device-types" ("device-types" ∷ []) body

abbrev pub use_update_device_type : String → Body → Mutation
use_update_device_type id body = update "device-types" put ("device-types" ∷ []) id body

abbrev pub use_delete_device_type : String → Mutation
use_delete_device_type id = remove "device-types" ("device-types" ∷ []) id
