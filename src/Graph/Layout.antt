-- ===== src/Graph/Layout.antt =====
-- Where the nodes end up, for a layout library that keeps the ids of what it is given, or that rejects
-- edges between nodes it is not given.
use datacenter_manager.Prelude.{
  String, ◌≡◌, ◌≢◌, refl, ap, subst, ◌∙◌, inl, inr, true, false, Option, none, some, List, [], ◌∷◌,
  map, filter, In, In-filter, In-filter_intro, any_intro, In-map, str_eq, eq_iff, lookup, set_key,
  lookup-set_key, Bool-cases, arith,
}
use datacenter_manager.Graph.{Point, Node, is_rack_group}
use datacenter_manager.Graph.Elk.{
  Edge, ElkLeaf, ElkNode, ElkGraph, LaidLeaf, LaidNode, elk_top, elk_group, top_level_of,
  child_nodes_of, has_parent_id, group_nodes_of, is_top_level, has_parent, has_groups, from_known,
  build_elk_graph, set_leaves, set_positions, moved_to, updated, layouted, leaf,
}

module _ (place : String → Point) where
  abbrev pub laid_leaf : ElkLeaf → LaidLeaf
  laid_leaf c = record { id = c.id; x = some (place c.id).x; y = some (place c.id).y }

  -- The node where the library has placed it, with its children.
  abbrev pub laid : ElkNode → LaidNode
  laid c = record {
    id = c.id;
    x = some (place c.id).x;
    y = some (place c.id).y;
    children = map laid_leaf c.children;
  }

  abbrev Keeps : List (String × Point) → List (String × Point) → Type 0
  Keeps m m' = (k : String) → lookup k m ≡ some (place k) → lookup k m' ≡ some (place k)

  set-Keeps : (k : String) (m : List (String × Point)) → Keeps m (set_key k (place k) m)
  set-Keeps k m j h = elim (Bool-cases (str_eq k j)) [
    | inl same ↦
        let e = (eq_iff k j).0 same in
        lookup-set_key k j (place k) m ∙ rw same (ap (λ i. some (place i)) e)
    | inr other ↦ lookup-set_key k j (place k) m ∙ rw other h
  ]

  tops_keep :
      (ns : List Node) (m : List (String × Point))
      → Keeps m (set_positions (map laid (map elk_top ns)) m)
  unfolding set_positions set_leaves
  tops_keep [] m k h = h
  tops_keep (n ∷ ns) m k h = tops_keep ns (set_key n.id (place n.id) m) k (set-Keeps n.id m k h)

  tops_placed :
      (n : Node) (ns : List Node) (m : List (String × Point))
      → In n ns
      → lookup n.id (set_positions (map laid (map elk_top ns)) m) ≡ some (place n.id)
  unfolding set_positions set_leaves
  tops_placed n [] m i = absurd i
  tops_placed n (x ∷ ns) m (inl e) =
      let at : lookup n.id (set_key x.id (place x.id) m) ≡ some (place n.id) =
        subst (λ y. lookup y.id (set_key x.id (place x.id) m) ≡ some (place y.id)) e
          (lookup-set_key x.id x.id (place x.id) m ∙ rw ((eq_iff x.id x.id).1 refl) refl) in
      tops_keep ns (set_key x.id (place x.id) m) n.id at
  tops_placed n (x ∷ ns) m (inr i) = tops_placed n ns (set_key x.id (place x.id) m) i

  map_placed :
      (m : List (String × Point)) (ns : List Node)
      → ((n : Node) → In n ns → lookup n.id m ≡ some (place n.id))
      → map (λ n. moved_to (lookup n.id m) n) ns ≡ map (λ n. moved_to (some (place n.id)) n) ns
  map_placed m [] h = refl
  map_placed m (n ∷ ns) h =
      let here = ap (λ o. moved_to o n) (h n (inl refl)) in
      let rest = map_placed m ns (λ x i. h x (inr i)) in λ i. here i ∷ rest i

all_top_level :
    (ns : List Node) → ((n : Node) → In n ns → is_top_level n ≡ true) → top_level_of ns ≡ ns
all_top_level [] h = refl
all_top_level (n ∷ ns) h =
    let first = h n (inl refl) in
    let rest = all_top_level ns (λ x i. h x (inr i)) in rw first (ap (λ l. n ∷ l) rest)

no_groups :
    (ns : List Node) → ((n : Node) → In n ns → is_top_level n ≡ true) → has_groups ns ≡ false
no_groups [] h = refl
no_groups (n ∷ ns) h =
    let first = h n (inl refl) in
    let rest = no_groups ns (λ x i. h x (inr i)) in ground (arith, first, rest)

-- With no rack nodes and no parents, as on the network canvas and with the grouping off, every node
-- ends up where the library places its id, and nothing else of it changes, if the library answers the
-- nodes that it is given, each with a place.
pub layouted_flat :
    (layout : ElkGraph → Option (List LaidNode)) (place : String → Point) (raw : List Node)
    (edges : List Edge)
    → ((n : Node) → In n raw → is_top_level n ≡ true)
    → layout (build_elk_graph raw edges)
      ≡ some (map (laid place) (build_elk_graph raw edges).children)
    → layouted layout raw edges ≡ map (λ n. moved_to (some (place n.id)) n) raw
unfolding layouted build_elk_graph
layouted_flat layout place raw edges flat answers =
    let none_here = no_groups raw flat in
    let tops = all_top_level raw flat in
    let a = rw (none_here, tops) at answers in
    rw (none_here, tops, a)
      (map_placed place (set_positions (map (laid place) (map elk_top raw)) []) raw
        (λ n i. tops_placed place n raw [] i))

-- The id is of no node of the graph.
abbrev pub IsUnknown : String → ElkGraph → Type 0
IsUnknown s g =
    (c : ElkNode) → In c g.children → (c.id ≢ s) × ((l : ElkLeaf) → In l c.children → l.id ≢ s)

not_top : (n : Node) → is_top_level n ≡ true → (has_parent n ≡ false) × (is_rack_group n ≡ false)
not_top n h = ground arith

group_unknown :
    (raw : List Node) (s : String)
    → ((n : Node) → In n raw → n.id ≡ s → is_top_level n ≡ true)
    → (g : Node) → In g (group_nodes_of raw)
    → ((elk_group raw g).id ≢ s) × ((l : ElkLeaf) → In l (elk_group raw g).children → l.id ≢ s)
group_unknown raw s top g i = (
  λ e.
      let (m, is_group) = In-filter is_rack_group g raw i in
      let no_group = (not_top g (top g m e)).1 in cc,
  λ l il e.
      let (c, ic, same) = In-map leaf l (filter (has_parent_id g.id) (child_nodes_of raw)) il in
      let (ic', h) = In-filter (has_parent_id g.id) c (child_nodes_of raw) ic in
      let (m, parent) = In-filter has_parent c raw ic' in
      let no_parent = (not_top c (top c m (ap (λ x. x.id) same ∙ e))).0 in cc,
)

-- With racks on the canvas, one edge whose source is a device without a rack spoils the layout: the
-- edge is given to the library but its source is not, and if the library rejects a graph with such an
-- edge, every node stays where it was. No node of a rack has that device's id.
pub layouted_unracked :
    (layout : ElkGraph → Option (List LaidNode)) (raw : List Node) (edges : List Edge) (e : Edge)
    (n : Node)
    (rejects : (g : ElkGraph) (e : Edge) → In e g.edges → IsUnknown e.source g → layout g ≡ none)
    → has_groups raw ≡ true
    → In e edges
    → In n raw
    → n.id ≡ e.source
    → ((m : Node) → In m raw → m.id ≡ e.source → is_top_level m ≡ true)
    → layouted layout raw edges ≡ raw
unfolding layouted build_elk_graph
layouted_unracked layout raw edges e n rejects groups ie i_n same top =
    let known : from_known raw e ≡ true =
      let t = In-filter_intro is_top_level n raw i_n (top n i_n same) in
      let h =
        any_intro (λ m. str_eq m.id e.source) n (top_level_of raw) t
          ((eq_iff n.id e.source).1 same) in
      ground (arith, h) in
    let given = In-filter_intro (from_known raw) e edges ie known in
    let unknown : (c : ElkNode)
        → In c (map (elk_group raw) (group_nodes_of raw))
        → (c.id ≢ e.source) × ((l : ElkLeaf) → In l c.children → l.id ≢ e.source) =
      λ c ic.
        let (g, ig, at) = In-map (elk_group raw) c (group_nodes_of raw) ic in
        subst (λ c. (c.id ≢ e.source) × ((l : ElkLeaf) → In l c.children → l.id ≢ e.source)) at
          (group_unknown raw e.source top g ig) in
    let r = rejects (build_elk_graph raw edges) e (rw groups given) (rw groups unknown) in
    ap (λ o. updated o raw) r
