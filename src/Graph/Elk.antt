-- ===== src/Graph/Elk.antt =====
-- frontend/src/components/topology/useElkLayout.ts: the graph that is given to the layout library and
-- what is done with its answer. The library is the parameter `layout`: `none` is a rejected promise.
-- The options that only tune it are left out.
use datacenter_manager.Prelude.{
  ℕ, ◌+◌, ◌*◌, String, Bool, false, not, ◌&&◌, ◌||◌, Option, none, some, List, [], ◌∷◌, map, filter,
  any, length, str_eq, lookup, set_key, ◌==◌, if◌then◌else◌,
}
use datacenter_manager.Prelude.Int.{ℤ, pos}
use datacenter_manager.Graph.{Point, RawTopologyEdge, Node, is_rack_group}

pub record Edge : Type 0 where
  pub id : String
  pub source : String
  pub target : String

-- `rawEdges`
abbrev pub raw_edge : RawTopologyEdge → Edge
raw_edge e = record { id = e.id; source = e.source; target = e.target }

pub record ElkLeaf : Type 0 where
  pub id : String
  pub width : ℕ
  pub height : ℕ

pub record ElkNode : Type 0 where
  pub id : String
  pub width : ℕ
  pub height : ℕ
  pub children : List ElkLeaf

pub record ElkGraph : Type 0 where
  pub children : List ElkNode
  pub edges : List Edge

abbrev pub has_parent : Node → Bool
has_parent n = elim n.parent_id [ none ↦ false | some p ↦ not (str_eq p "") ]

abbrev pub has_parent_id : String → Node → Bool
has_parent_id id n = elim n.parent_id [ none ↦ false | some p ↦ str_eq p id ]

abbrev pub group_nodes_of : List Node → List Node
group_nodes_of raw = filter is_rack_group raw

abbrev pub child_nodes_of : List Node → List Node
child_nodes_of raw = filter has_parent raw

abbrev pub is_top_level : Node → Bool
is_top_level n = not (has_parent n) && not (is_rack_group n)

abbrev pub top_level_of : List Node → List Node
top_level_of raw = filter is_top_level raw

-- `xs.length || 1`
abbrev pub at_least_one : ℕ → ℕ
at_least_one n = if n == 0 then 1 else n

abbrev pub leaf : Node → ElkLeaf
leaf n = record { id = n.id; width = 168; height = 64 }

abbrev pub elk_group : List Node → Node → ElkNode
elk_group raw group =
    let children = filter (has_parent_id group.id) (child_nodes_of raw) in
    record {
      id = group.id;
      width = 168 + 20 * 2;
      height = 40 + at_least_one (length children) * (64 + 12) + 20;
      children = map leaf children;
    }

abbrev pub elk_top : Node → ElkNode
elk_top n = record { id = n.id; width = 168; height = 64; children = [] }

abbrev pub from_known : List Node → Edge → Bool
from_known raw e =
    any (λ n. str_eq n.id e.source) (group_nodes_of raw)
    || any (λ n. str_eq n.id e.source) (top_level_of raw)

abbrev pub has_groups : List Node → Bool
has_groups raw = any is_rack_group raw

unfoldable pub build_elk_graph : List Node → List Edge → ElkGraph
build_elk_graph raw edges =
    if has_groups raw
    then record {
      children = map (elk_group raw) (group_nodes_of raw);
      edges = filter (from_known raw) edges;
    }
    else record { children = map elk_top (top_level_of raw); edges = edges }

-- What the library answers: coordinates may be missing.
pub record LaidLeaf : Type 0 where
  pub id : String
  pub x : Option ℤ
  pub y : Option ℤ

pub record LaidNode : Type 0 where
  pub id : String
  pub x : Option ℤ
  pub y : Option ℤ
  pub children : List LaidLeaf

-- `z ?? 0`
abbrev pub or_zero : Option ℤ → ℤ
or_zero none = pos 0
or_zero (some z) = z

unfoldable pub set_leaves : List LaidLeaf → List (String × Point) → List (String × Point)
set_leaves [] m = m
set_leaves (c ∷ cs) m = set_leaves cs (set_key c.id (record { x = or_zero c.x; y = or_zero c.y }) m)

-- `posMap`
unfoldable pub set_positions : List LaidNode → List (String × Point) → List (String × Point)
set_positions [] m = m
set_positions (c ∷ cs) m =
    set_positions cs
      (set_leaves c.children (set_key c.id (record { x = or_zero c.x; y = or_zero c.y }) m))

abbrev pub moved_to : Option Point → Node → Node
moved_to none n = n
moved_to (some p) n = record n { position = p }

abbrev pub updated : Option (List LaidNode) → List Node → List Node
updated none raw = raw
updated (some children) raw =
    let pos_map = set_positions children [] in map (λ n. moved_to (lookup n.id pos_map) n) raw

-- The nodes once the promise has settled.
unfoldable pub layouted : (ElkGraph → Option (List LaidNode)) → List Node → List Edge → List Node
layouted layout raw edges = updated (layout (build_elk_graph raw edges)) raw
