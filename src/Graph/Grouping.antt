-- ===== src/Graph/Grouping.antt =====
-- frontend/src/components/topology/PhysicalTopologyCanvas.tsx: the loop that groups devices by rack.
use Prim.Native.Nat.{max}
use datacenter_manager.Prelude.{
  ◌+◌, ◌*◌, String, Bool, true, false, Option, none, some, List, [], ◌∷◌, ◌++◌, map, flat_map,
  length, str_eq, if◌then◌else◌,
}
use datacenter_manager.Graph.{
  RawTopologyNode, PhysicalTopologyResponse, device, rack_group, Node, origin,
}

-- A rack of `rackMap`; its id is the key.
pub record RackEntry : Type 0 where
  pub rack_name : String
  pub room_name : Option String
  pub devices : List RawTopologyNode

pub record Grouped : Type 0 where
  pub rack_map : List (String × RackEntry)
  pub no_rack : List RawTopologyNode

-- `n.data.rack_id`, if it is truthy
abbrev pub truthy_id : Option String → Option String
truthy_id none = none
truthy_id (some s) = if str_eq s "" then none else some s

abbrev pub rack_of : RawTopologyNode → Option String
rack_of n = truthy_id n.info.rack_id

-- `a ?? b`
abbrev pub or_else : Option String → String → String
or_else none b = b
or_else (some a) b = a

abbrev pub new_entry : String → RawTopologyNode → RackEntry
new_entry r n = record {
  rack_name = or_else n.info.rack_name r;
  room_name = n.info.room_name;
  devices = n ∷ [];
}

-- The rack is added to the map if it is new, and the device is pushed to its list.
unfoldable pub push_device :
    String → RawTopologyNode → List (String × RackEntry) → List (String × RackEntry)
push_device r n [] = (r, new_entry r n) ∷ []
push_device r n ((k, e) ∷ m) =
    let rest = push_device r n m in
    if str_eq k r then (k, record e { devices = e.devices ++ (n ∷ []) }) ∷ m else (k, e) ∷ rest

abbrev pub place : Option String → RawTopologyNode → Grouped → Grouped
place none n g = record g { no_rack = g.no_rack ++ (n ∷ []) }
place (some r) n g = record g { rack_map = push_device r n g.rack_map }

unfoldable pub group_nodes : List RawTopologyNode → Grouped → Grouped
group_nodes [] g = g
group_nodes (n ∷ ns) g = group_nodes ns (place (rack_of n) n g)

abbrev pub nothing_grouped : Grouped
nothing_grouped = record { rack_map = []; no_rack = [] }

abbrev pub child_node : Option String → RawTopologyNode → Node
child_node parent n = record {
  id = n.id;
  parent_id = parent;
  position = origin;
  info = device n.info;
}

abbrev pub group_node : String → RackEntry → Node
group_node r e = record {
  id = r;
  parent_id = none;
  position = origin;
  info =
      rack_group e.rack_name e.room_name (length e.devices) (max (length e.devices) 12)
        (40 + length e.devices * 76 + 20);
}

abbrev pub rack_nodes : String × RackEntry → List Node
rack_nodes (r, e) = group_node r e ∷ map (child_node (some r)) e.devices

unfoldable pub grouped_nodes : Grouped → List Node
grouped_nodes g = flat_map rack_nodes g.rack_map ++ map (child_node none) g.no_rack

abbrev pub flat_node : RawTopologyNode → Node
flat_node n = record { id = n.id; parent_id = none; position = n.position; info = device n.info }

-- `rawNodes`, with the checkbox "Group by rack"
unfoldable pub raw_nodes : Bool → PhysicalTopologyResponse → List Node
raw_nodes true api = grouped_nodes (group_nodes api.nodes nothing_grouped)
raw_nodes false api = map flat_node api.nodes
