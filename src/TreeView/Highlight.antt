-- ===== src/TreeView/Highlight.antt =====
-- Which rows are highlighted, in blue for the selected node and in yellow for a match of the search.
use datacenter_manager.Prelude.{
  ℕ, zero, suc, String, ◌≡◌, refl, sym, ap, subst, ◌∙◌, ◌↔◌, inl, inr, Bool, true, false, ◌&&◌,
  Option, none, some, List, [], ◌∷◌, ◌++◌, map, flat_map, str_eq, eq_iff, arith, In, In-append,
  In-map, In-flat_map,
}
use datacenter_manager.DeviceRecords.{DeviceRead}
use datacenter_manager.InfraRecords.{DataCenterRead, RoomRead, RackRead}
use datacenter_manager.TreeView.{
  NodeData, datacenter, room, rack, device, interface, vm, node_key, kind, id_of, Query,
}
use datacenter_manager.TreeView.Keys.{node_key-inj}
use datacenter_manager.TreeView.Matching.{is_match, is_nonempty}
use datacenter_manager.TreeView.Search.{Occurs, includes_iff}
use datacenter_manager.TreeView.Rows.{
  TreeRow, Item, tree_row, empty_hint, View, hint_if_empty, when, is_key, loaded, is_blade_chassis,
  node_row, leaf_row, device_node, rack_node, room_node, datacenter_node, tree, is_open,
  has_no_children, blades_of, ifaces_of, vms_of,
}

abbrev pub name_of : NodeData → String
name_of (datacenter d) = d.name
name_of (room r) = r.name
name_of (rack r) = r.name
name_of (device d) = d.name
name_of (interface i) = i.name
name_of (vm v) = v.name

-- `P` holds of every row among the items.
abbrev Every : (TreeRow → Type 0) → List Item → Type 0
Every P items = (r : TreeRow) → In (tree_row r) items → P r

module _ (P : TreeRow → Type 0) where
  Every-cons :
      (row : TreeRow) (items : List Item) → P row → Every P items → Every P (tree_row row ∷ items)
  Every-cons row items h t r (inl e) = let same : row ≡ r = cc e in subst P same h
  Every-cons row items h t r (inr i) = t r i

  Every-append : (xs ys : List Item) → Every P xs → Every P ys → Every P (xs ++ ys)
  Every-append xs ys hx hy r i = elim (In-append (tree_row r) xs ys i) [
    | inl l ↦ hx r l
    | inr k ↦ hy r k
  ]

  Every-flat_map :
      {A : Type 0} (f : A → List Item) (xs : List A)
      → ((a : A) → Every P (f a))
      → Every P (flat_map f xs)
  Every-flat_map f xs h r i = let (a, m, k) = In-flat_map f (tree_row r) xs i in h a r k

  Every-map :
      {A : Type 0} (row : A → TreeRow) (xs : List A)
      → ((a : A) → P (row a))
      → Every P (map (λ a. tree_row (row a)) xs)
  Every-map row xs h r i =
      let (a, m, e) = In-map (λ b. tree_row (row b)) (tree_row r) xs i in
      let same : row a ≡ r = cc e in subst P same (h a)

  Every-when : (b : Bool) (xs : List Item) → Every P xs → Every P (when b xs)
  Every-when true xs h r i = h r i
  Every-when false xs h r i = absurd i

  Every-hint : (k : ℕ) (s : String) → Every P (empty_hint k s ∷ [])
  Every-hint k s r (inl e) = absurd (cc)
  Every-hint k s r (inr i) = absurd i

  Every-hint_if_empty :
      {A : Type 0} (f : Bool) (o : Option (List A)) (k : ℕ) (s : String)
      → Every P (hint_if_empty f o k s)
  Every-hint_if_empty f none k s r i = absurd i
  Every-hint_if_empty f (some (x ∷ xs)) k s r i = absurd i
  Every-hint_if_empty true (some []) k s r i = absurd i
  Every-hint_if_empty false (some []) k s r i = Every-hint k s r i

module _ (lower : String → String) (v : View) where
  -- The row's highlights are those of the node that it selects.
  abbrev Fits : TreeRow → Type 0
  Fits r =
      (r.is_selected ≡ is_key v.selected_key (node_key r.on_select))
      × (r.is_match ≡ is_match lower v.search (name_of r.on_select))

  Every-device : (fuel : ℕ) (d : DeviceRead) (k : ℕ) → Every Fits (device_node lower v fuel d k)
  unfolding device_node node_row leaf_row
  Every-device zero d k r i = absurd i
  Every-device (suc fuel) d k r i =
      Every-cons Fits _ _ (refl, refl)
        (Every-when Fits (is_open v (device d)) _ (
          Every-append Fits _ _
            (Every-append Fits _ _
              (Every-append Fits _ _
                (Every-when Fits (is_blade_chassis d) _ (
                  Every-flat_map Fits _ (loaded (blades_of v d).cached)
                    (λ b. Every-device fuel b (suc k))))
                (Every-map Fits _ (loaded (ifaces_of v d).cached) (λ x. (refl, refl))))
              (Every-map Fits _ (loaded (vms_of v d).cached) (λ x. (refl, refl))))
            (Every-when Fits (has_no_children v d) _ (Every-hint Fits k "No interfaces or VMs"))))
        r i

  -- The levels above the devices.
  Every-level :
      {A : Type 0} (row : TreeRow) (b : Bool) (f : A → List Item) (q : Query (List A)) (k : ℕ)
      (s : String)
      → Fits row
      → ((a : A) → Every Fits (f a))
      → Every Fits (
          tree_row row
          ∷ when b (flat_map f (loaded q.cached) ++ hint_if_empty q.is_fetching q.cached k s))
  Every-level row b f q k s h kids = Every-cons Fits row _ h (
      Every-when Fits b _ (
        Every-append Fits _ _ (Every-flat_map Fits f (loaded q.cached) kids)
          (Every-hint_if_empty Fits q.is_fetching q.cached k s)))

  Every-rack : (fuel : ℕ) (r : RackRead) (k : ℕ) → Every Fits (rack_node lower v fuel r k)
  unfolding rack_node node_row
  Every-rack fuel r k =
      Every-level _ _ _ (v.queries.tree_devices_rack r.id) k _ (refl, refl)
        (λ d. Every-device fuel d (suc k))

  Every-room : (fuel : ℕ) (r : RoomRead) (k : ℕ) → Every Fits (room_node lower v fuel r k)
  unfolding room_node node_row
  Every-room fuel r k =
      Every-level _ _ _ (v.queries.tree_racks r.id) k _ (refl, refl)
        (λ d. Every-rack fuel d (suc k))

  Every-datacenter :
      (fuel : ℕ) (r : DataCenterRead) (k : ℕ) → Every Fits (datacenter_node lower v fuel r k)
  unfolding datacenter_node node_row
  Every-datacenter fuel r k =
      Every-level _ _ _ (v.queries.tree_rooms r.id) k _ (refl, refl)
        (λ d. Every-room fuel d (suc k))

  Every-row : (fuel : ℕ) (dcs : List DataCenterRead) → Every Fits (tree lower v fuel dcs)
  unfolding tree
  Every-row fuel dcs = Every-flat_map Fits _ dcs (λ dc. Every-datacenter fuel dc 0)

node_key_same : (n m : NodeData) → kind n ≡ kind m → id_of n ≡ id_of m → node_key n ≡ node_key m
unfolding node_key
node_key_same n m k d = cc

and_parts : {a b : Bool} → (a && b) ≡ true → (a ≡ true) × (b ≡ true)
and_parts h = ground arith

-- A row is marked as selected just if its node has the kind and the id of the selected node, and as a
-- match just if the search is not empty and, lower-cased, occurs in the lower-cased name of the row's
-- node: an interface's name without the speed after it.
pub tree-highlights :
    (lower : String → String) (v : View) (fuel : ℕ) (dcs : List DataCenterRead) (r : TreeRow)
    (s : NodeData)
    → In (tree_row r) (tree lower v fuel dcs)
    → v.selected_key ≡ some (node_key s)
    → ((r.is_selected ≡ true) ↔ ((kind s ≡ kind r.on_select) × (id_of s ≡ id_of r.on_select)))
      × ((r.is_match ≡ true)
          ↔ ((is_nonempty v.search ≡ true) × Occurs (lower v.search) (lower (name_of r.on_select))))
unfolding is_match
tree-highlights lower v fuel dcs r s i e =
    let (b, y) = Every-row lower v fuel dcs r i in
    let same = eq_iff (node_key s) (node_key r.on_select) in
    let b' : r.is_selected ≡ str_eq (node_key s) (node_key r.on_select) =
      b ∙ ap (λ o. is_key o (node_key r.on_select)) e in
    let o = includes_iff (lower (name_of r.on_select)) (lower v.search) in
    (
      (
        λ h. node_key-inj s r.on_select (same.0 (sym b' ∙ h)),
        λ (k, d). b' ∙ same.1 (node_key_same s r.on_select k d),
      ),
      (
        λ h. let both = sym y ∙ h in ((and_parts both).0, o.0 (and_parts both).1),
        λ (n, c). let c' = o.1 c in y ∙ ground (arith, n, c'),
      ),
    )
