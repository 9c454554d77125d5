-- ===== src/Graph.antt =====
-- frontend/src/types/topology.ts: the graph of devices and links that the API answers, and
-- frontend/src/components/topology/PhysicalTopologyCanvas.tsx: the nodes and edges that the canvas
-- makes of it. Icons, colours and handles of the drawing library are left out.
pub mod Grouping
pub mod Partition
pub mod Elk
pub mod Layout
mod Tests
use datacenter_manager.Prelude.{
  ℕ, ◌+◌, ◌*◌, String, Bool, true, false, Option, none, some, List, [], ◌∷◌, ◌++◌, map, flat_map,
  length, str_eq, if◌then◌else◌,
}
use datacenter_manager.Prelude.Int.{ℤ, pos}
use datacenter_manager.Topology.{DeviceStatus}
use Prim.Native.Nat.{max}

pub data LinkType : Type 0 where
  ethernet fiber dac lag console power other : LinkType

pub data LinkStatus : Type 0 where
  link_active link_inactive : LinkStatus

pub record Point : Type 0 where
  pub x : ℤ
  pub y : ℤ

pub record TopologyNodeData : Type 0 where
  pub label : String
  pub device_type : String
  pub status : DeviceStatus
  pub rack_id : Option String
  pub rack_name : Option String
  pub room_name : Option String
  pub datacenter_name : Option String
  pub power_rated_w : Option ℕ
  pub ip_addresses : List String
  pub vlans : Option (List ℕ)

pub record TopologyEdgeData : Type 0 where
  pub link_type : LinkType
  pub status : LinkStatus
  pub speed_mbps : Option ℕ
  pub interface_a : Option String
  pub interface_b : Option String
  pub vlans : Option (List ℕ)

-- `data` of a node or edge is `info` here.
pub record RawTopologyNode : Type 0 where
  pub id : String
  pub info : TopologyNodeData
  pub position : Point

pub record RawTopologyEdge : Type 0 where
  pub id : String
  pub source : String
  pub target : String
  pub info : TopologyEdgeData

pub record PhysicalTopologyResponse : Type 0 where
  pub nodes : List RawTopologyNode
  pub edges : List RawTopologyEdge

-- `type` and `data` of a node of the canvas.
pub data NodeInfo : Type 0 where
  device : TopologyNodeData → NodeInfo
  rack_group : (label : String) (room_name : Option String) (used_u total_u height : ℕ) → NodeInfo

pub record Node : Type 0 where
  pub id : String
  pub parent_id : Option String
  pub position : Point
  pub info : NodeInfo

abbrev pub origin : Point
origin = record { x = pos 0; y = pos 0 }

abbrev pub is_rack_group : Node → Bool
is_rack_group n = elim n.info [ device d ↦ false | rack_group l r u t h ↦ true ]
