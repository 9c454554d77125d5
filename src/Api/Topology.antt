-- ===== src/Api/Topology.antt =====
-- The hooks of frontend/src/api: topology.ts.
use datacenter_manager.Prelude.{
  ℕ, String, true, Option, none, some, [], ◌∷◌, ◌++◌, ◌&&◌, ◌==◌, if◌then◌else◌,
}
use datacenter_manager.Api.{
  Params, Query, KeyPart, fetch, is_given, given?, name?, text?, segment?, name, count, missing,
  text, number, paged, single,
}

abbrev count? : Option ℕ → KeyPart
count? none = missing
count? (some n) = count n

-- `id && { k: id }`, spread into the parameters
abbrev if_given : String → Option String → Params
if_given k none = []
if_given k (some s) = if is_given s then (k, text s) ∷ [] else []

abbrev if_nonzero : String → Option ℕ → Params
if_nonzero k none = []
if_nonzero k (some n) = if n == 0 then [] else (k, number n) ∷ []

-- topology.ts
abbrev pub use_datacenters : Query
use_datacenters = record {
  key = name "datacenters" ∷ [];
  request = fetch ("datacenters" ∷ []) [];
  expects = paged;
  enabled = true;
}

abbrev pub use_physical_topology : Option String → Query
use_physical_topology datacenter_id = record {
  key = name "topology" ∷ name "physical" ∷ name? datacenter_id ∷ [];
  request = fetch ("topology" ∷ "physical" ∷ []) (if_given "datacenter_id" datacenter_id);
  expects = single;
  enabled = true;
}

abbrev pub use_network_topology : Option String → Option ℕ → Query
use_network_topology datacenter_id vlan_id = record {
  key = name "topology" ∷ name "network" ∷ name? datacenter_id ∷ count? vlan_id ∷ [];
  request =
      fetch ("topology" ∷ "network" ∷ [])
        (if_given "datacenter_id" datacenter_id ++ if_nonzero "vlan_id" vlan_id);
  expects = single;
  enabled = true;
}

abbrev pub use_floor_plan : Option String → Query
use_floor_plan datacenter_id = record {
  key = name "topology" ∷ name "floor-plan" ∷ name? datacenter_id ∷ [];
  request = fetch ("topology" ∷ "floor-plan" ∷ []) (text? "datacenter_id" datacenter_id);
  expects = single;
  enabled = given? datacenter_id;
}

abbrev pub use_rack_elevation : Option String → Query
use_rack_elevation rack_id = record {
  key = name "topology" ∷ name "rack-elevation" ∷ name? rack_id ∷ [];
  request = fetch ("racks" ∷ segment? rack_id ∷ "elevation" ∷ []) [];
  expects = single;
  enabled = given? rack_id;
}

abbrev pub use_blades_of_chassis : Option String → Query
use_blades_of_chassis chassis_id = record {
  key = name "devices" ∷ name "chassis-blades" ∷ name? chassis_id ∷ [];
  request =
      fetch ("devices" ∷ [])
        (text? "blade_chassis_id" chassis_id ++ ("size", number 100) ∷ ("page", number 1) ∷ []);
  expects = paged;
  enabled = given? chassis_id;
}

abbrev pub use_hop_path : Option String → Option String → Query
use_hop_path from to = record {
  key = name "topology" ∷ name "hop-path" ∷ name? from ∷ name? to ∷ [];
  request = fetch ("topology" ∷ "path" ∷ []) (text? "from" from ++ text? "to" to);
  expects = single;
  enabled = given? from && given? to;
}
