-- ===== src/Graph/Tests.antt =====
-- Two devices of a rack and one without a rack, with links from each.
use datacenter_manager.Prelude.{
  String, ◌≡◌, ◌≢◌, refl, inl, inr, Bool, true, false, not, Option, none, some, List, [], ◌∷◌, In,
  map, filter, eq_iff, if◌then◌else◌, any, str_eq, ◌||◌, Bool-cases, any_intro, any-eq-true, sym,
  ap, ◌∙◌,
}
use datacenter_manager.Prelude.Int.{pos}
use datacenter_manager.Topology.{active}
use datacenter_manager.Graph.{RawTopologyNode, Node, origin, Point}
use datacenter_manager.Graph.Grouping.{
  group_nodes, nothing_grouped, rack_of, flat_node, child_node, group_node, new_entry,
}
use datacenter_manager.Graph.Partition.{devices_of, is_rack, has_rack, Distinct, group_nodes-filter}
use datacenter_manager.Graph.Elk.{Edge, ElkGraph, LaidNode, layouted, is_top_level}
use datacenter_manager.Graph.Layout.{layouted_unracked, laid, IsUnknown}

abbrev sw : String → Option String → RawTopologyNode
sw id rack = record {
  id = id;
  info = record {
    label = id;
    device_type = "switch";
    status = active;
    rack_id = rack;
    rack_name = none;
    room_name = none;
    datacenter_name = none;
    power_rated_w = none;
    ip_addresses = [];
    vlans = none;
  };
  position = origin;
}

abbrev three : List RawTopologyNode
three = sw "a" (some "r") ∷ sw "b" none ∷ sw "c" (some "r") ∷ []

group_nodes-filter_example :
    (devices_of "r" (group_nodes three nothing_grouped)
      ≡ filter (λ n. is_rack (rack_of n) "r") three)
    × ((group_nodes three nothing_grouped).no_rack ≡ filter (λ n. not (has_rack (rack_of n))) three)
    × Distinct (group_nodes three nothing_grouped).rack_map
group_nodes-filter_example = group_nodes-filter three "r"

abbrev flat : List Node
flat = map flat_node three

abbrev links : List Edge
links = record { id = "l"; source = "b"; target = "a" } ∷ []

abbrev place : String → Point
place id = record { x = pos 7; y = pos 9 }

abbrev answers : ElkGraph → Option (List LaidNode)
answers g = some (map (laid place) g.children)

flat_top : (n : Node) → In n flat → is_top_level n ≡ true
flat_top n (inl e) = rw (sym e) refl
flat_top n (inr (inl e)) = rw (sym e) refl
flat_top n (inr (inr (inl e))) = rw (sym e) refl
flat_top n (inr (inr (inr e))) = absurd e

abbrev racked : List Node
racked =
    group_node "r" (new_entry "r" (sw "a" (some "r")))
    ∷ child_node (some "r") (sw "a" (some "r"))
    ∷ child_node none (sw "b" none)
    ∷ []

known_id : String → ElkGraph → Bool
known_id s g = any (λ c. str_eq c.id s || any (λ l. str_eq l.id s) c.children) g.children

-- A library that rejects a graph with an edge from a node that it is not given.
strict : ElkGraph → Option (List LaidNode)
strict g = if any (λ e. not (known_id e.source g)) g.edges then none else answers g

unknown_id : (s : String) (g : ElkGraph) → IsUnknown s g → known_id s g ≡ false
unfolding known_id
unknown_id s g u = elim (Bool-cases (known_id s g)) [
  | inl found ↦
      let (c, i, h) =
        any-eq-true (λ c. str_eq c.id s || any (λ l. str_eq l.id s) c.children) g.children found in
      elim (Bool-cases (str_eq c.id s)) [
        | inl here ↦ absurd ((u c i).0 ((eq_iff c.id s).0 here))
        | inr below ↦
            let (l, il, same) = any-eq-true (λ l. str_eq l.id s) c.children (rw below at h) in
            absurd ((u c i).1 l il ((eq_iff l.id s).0 same))
      ]
  | inr not_found ↦ not_found
]

strict_rejects : (g : ElkGraph) (e : Edge) → In e g.edges → IsUnknown e.source g → strict g ≡ none
unfolding strict
strict_rejects g e i u =
    let n = unknown_id e.source g u in
    let h = any_intro (λ e. not (known_id e.source g)) e g.edges i (rw n refl) in rw h refl

b_r : ◌≢◌ {A = String} "r" "b"
b_r e = let b : false ≡ true = (eq_iff "r" "b").1 e in absurd (cc)

b_a : ◌≢◌ {A = String} "a" "b"
b_a e = let b : false ≡ true = (eq_iff "a" "b").1 e in absurd (cc)

only_b : (m : Node) → In m racked → m.id ≡ "b" → is_top_level m ≡ true
only_b m (inl e) s = absurd (b_r (ap (λ x. x.id) e ∙ s))
only_b m (inr (inl e)) s = absurd (b_a (ap (λ x. x.id) e ∙ s))
only_b m (inr (inr (inl e))) s = rw (sym e) refl
only_b m (inr (inr (inr e))) s = absurd e

layouted_unracked_example : layouted strict racked links ≡ racked
layouted_unracked_example =
    layouted_unracked strict racked links (record { id = "l"; source = "b"; target = "a" })
      (child_node none (sw "b" none)) strict_rejects refl (inl refl) (inr (inr (inl refl))) refl
      only_b
