-- ===== src/TreeView/Complete.antt =====
-- Every node below a shown one has its row, where fuel is enough for the chassis above it.
use datacenter_manager.Prelude.{
  ℕ, zero, suc, ◌<◌, String, ◌≡◌, refl, subst, ◌∙◌, ◌⊎◌, inl, inr, List, [], ◌∷◌, ◌++◌, map,
  flat_map, eq_iff, arith, In, In-map_intro,
}
use datacenter_manager.DeviceRecords.{DeviceRead}
use datacenter_manager.InfraRecords.{DataCenterRead, RoomRead, RackRead}
use datacenter_manager.TreeView.{
  NodeData, datacenter, room, rack, device, interface, vm, node_key, Query,
}
use datacenter_manager.TreeView.Sets.{In→has}
use datacenter_manager.TreeView.Rows.{
  TreeRow, Item, tree_row, empty_hint, View, loaded, hint_if_empty, when, is_open, ifaces_of,
  vms_of, blades_of, is_blade_chassis, has_no_children, device_node, rack_node, room_node,
  datacenter_node, node_row, leaf_row, interface_item, vm_item,
}
use datacenter_manager.TreeView.Visible.{
  Cached, Child, Below, Below-cases, itself, under, Shows, Shows-flat_map_intro, Shows-left,
  Shows-right,
}

module _ (lower : String → String) (v : View) (m : NodeData) (j : ℕ) where
  -- The row of the node itself.
  Shows-head :
      (n : NodeData) (k : ℕ) (row : TreeRow) (rest : List Item)
      → row.on_select ≡ n
      → row.depth ≡ k
      → (n ≡ m) × (k ≡ j)
      → Shows (tree_row row ∷ rest) m j
  unfolding Shows
  Shows-head n k row rest en ek (e, d) = (row, inl refl, en ∙ e, ek ∙ d)

  Shows-opened :
      (n : NodeData) (row : TreeRow) (rest : List Item)
      → In (node_key n) v.expanded
      → Shows rest m j
      → Shows (tree_row row ∷ when (is_open v n) rest) m j
  unfolding Shows
  Shows-opened n row rest o (r, i, e, d) =
      let h = In→has (node_key n) v.expanded o in (r, inr (rw h i), e, d)

  leaf :
      (n : NodeData) (k : ℕ)
      → ((c : NodeData) → ¬ (Child v n c))
      → Below v n k m j
      → (n ≡ m) × (k ≡ j)
  leaf n k none_below b = elim (Below-cases b) [
    | inl here ↦ here
    | inr (c, o, x, u) ↦ absurd (none_below c x)
  ]

  Shows-one :
      {A : Type 0} (row : A → TreeRow) (n : A → NodeData) (k : ℕ) (xs : List A)
      (same : (a : A) → ((row a).on_select ≡ n a) × ((row a).depth ≡ k))
      → (a : A) → In a xs
      → (n a ≡ m) × (k ≡ j)
      → Shows (map (λ b. tree_row (row b)) xs) m j
  unfolding Shows
  Shows-one row n k xs same a i (e, d) =
      (row a, In-map_intro (λ b. tree_row (row b)) a xs i, (same a).0 ∙ e, (same a).1 ∙ d)

  Shows-at :
      (xs ys zs ws : List Item)
      → Shows xs m j ⊎ Shows ys m j ⊎ Shows zs m j
      → Shows (xs ++ ys ++ zs ++ ws) m j
  Shows-at xs ys zs ws (inl a) = Shows-left m j _ ws (Shows-left m j _ zs (Shows-left m j xs ys a))
  Shows-at xs ys zs ws (inr (inl b)) =
      Shows-left m j _ ws (Shows-left m j _ zs (Shows-right m j xs ys b))
  Shows-at xs ys zs ws (inr (inr c)) = Shows-left m j _ ws (Shows-right m j _ zs c)

  -- The three levels above the devices.
  level_shown :
      {A : Type 0} (n : NodeData) (k : ℕ) (row : TreeRow) (f : A → List Item) (to : A → NodeData)
      (q : Query (List A)) (s : String)
      → row.on_select ≡ n
      → row.depth ≡ k
      → ((c : NodeData) → Child v n c → (a : A) × Cached q.cached a × (c ≡ to a))
      → ((a : A) → Below v (to a) (suc k) m j → Shows (f a) m j)
      → Below v n k m j
      → Shows
          (tree_row row
            ∷ when
                (is_open v n)
                (flat_map f (loaded q.cached) ++ hint_if_empty q.is_fetching q.cached k s))
          m
          j
  level_shown n k row f to q s en ek kid child itself = Shows-head n k row _ en ek (refl, refl)
  level_shown n k row f to q s en ek kid child (under {c = c} o h b) =
      let (a, i, e) = kid c h in
      let b' = subst (λ p. Below v p (suc k) m j) e b in
      Shows-opened n row _ o (
        Shows-left m j (flat_map f (loaded q.cached)) _
          (Shows-flat_map_intro m j f a (loaded q.cached) i (child a b')))

module _ (lower : String → String) (v : View) (rank : DeviceRead → ℕ)
    (ranked : (d b : DeviceRead)
      → d.device_type ≡ "blade_chassis"
      → Cached (v.queries.tree_blades d.id).cached b
      → rank b < rank d)
    (m : NodeData) (j : ℕ) where
  -- What is shown of a node under a device.
  kid_shown :
      (f : DeviceRead → List Item) (d : DeviceRead) (k : ℕ)
      → ((b : DeviceRead) → rank b < rank d → Below v (device b) (suc k) m j → Shows (f b) m j)
      → (c : NodeData) → Child v (device d) c
      → Below v c (suc k) m j
      → Shows
          (when (is_blade_chassis d) (flat_map f (loaded (blades_of v d).cached))
            ++ map (interface_item lower v (suc k)) (loaded (ifaces_of v d).cached)
            ++ map (vm_item lower v (suc k)) (loaded (vms_of v d).cached)
            ++ when (has_no_children v d) (empty_hint k "No interfaces or VMs" ∷ []))
          m
          j
  unfolding leaf_row
  kid_shown f d k blade c (inl (b, t, i, e)) u =
      let u' = subst (λ p. Below v p (suc k) m j) e u in
      let is_chassis = (eq_iff d.device_type "blade_chassis").1 t in
      let s : Shows (when (is_blade_chassis d) (flat_map f (loaded (blades_of v d).cached))) m j =
        rw is_chassis (
          Shows-flat_map_intro m j f b (loaded (blades_of v d).cached) i
            (blade b (ranked d b t i) u')) in
      Shows-at lower v m j _ _ _ _ (inl s)
  kid_shown f d k blade c (inr (inl (a, i, e))) u =
      let u' = subst (λ p. Below v p (suc k) m j) e u in
      let s : Shows (map (interface_item lower v (suc k)) (loaded (ifaces_of v d).cached)) m j =
        Shows-one lower v m j _ interface (suc k) _ (λ x. (refl, refl)) a i
          (leaf lower v m j (interface a) (suc k) (λ c x. x) u') in
      Shows-at lower v m j (when (is_blade_chassis d) (flat_map f (loaded (blades_of v d).cached)))
        _ _ _ (inr (inl s))
  kid_shown f d k blade c (inr (inr (a, i, e))) u =
      let u' = subst (λ p. Below v p (suc k) m j) e u in
      let s : Shows (map (vm_item lower v (suc k)) (loaded (vms_of v d).cached)) m j =
        Shows-one lower v m j _ vm (suc k) _ (λ x. (refl, refl)) a i
          (leaf lower v m j (vm a) (suc k) (λ c x. x) u') in
      Shows-at lower v m j (when (is_blade_chassis d) (flat_map f (loaded (blades_of v d).cached)))
        (map (interface_item lower v (suc k)) (loaded (ifaces_of v d).cached)) _ _ (inr (inr s))

  device_shown :
      (fuel : ℕ) (d : DeviceRead) (k : ℕ)
      → rank d < fuel
      → Below v (device d) k m j
      → Shows (device_node lower v fuel d k) m j
  unfolding device_node node_row
  device_shown zero d k h b = absurd (omega arith)
  device_shown (suc fuel) d k h b = elim (Below-cases b) [
    | inl here ↦ Shows-head lower v m j (device d) k _ _ refl refl here
    | inr (c, o, x, u) ↦
        Shows-opened lower v m j (device d) _ _ o
          (kid_shown _ d k (λ b' less. device_shown fuel b' (suc k) (omega arith)) c x u)
  ]

  module _ (fuel : ℕ) (enough : (d : DeviceRead) → rank d < fuel) where
    rack_shown :
        (r : RackRead) (k : ℕ) → Below v (rack r) k m j → Shows (rack_node lower v fuel r k) m j
    unfolding rack_node node_row
    rack_shown r k b =
        level_shown lower v m j (rack r) k _ _ device (v.queries.tree_devices_rack r.id) _ refl refl
          (λ c x. x) (λ d. device_shown fuel d (suc k) (enough d)) b

    room_shown :
        (r : RoomRead) (k : ℕ) → Below v (room r) k m j → Shows (room_node lower v fuel r k) m j
    unfolding room_node node_row
    room_shown r k b =
        level_shown lower v m j (room r) k _ _ rack (v.queries.tree_racks r.id) _ refl refl
          (λ c x. x) (λ d. rack_shown d (suc k)) b

    pub datacenter_shown :
        (dc : DataCenterRead) (k : ℕ)
        → Below v (datacenter dc) k m j
        → Shows (datacenter_node lower v fuel dc k) m j
    unfolding datacenter_node node_row
    datacenter_shown dc k b =
        level_shown lower v m j (datacenter dc) k _ _ room (v.queries.tree_rooms dc.id) _ refl refl
          (λ c x. x) (λ d. room_shown d (suc k)) b
