-- ===== src/TreeView/Sound.antt =====
-- Every row that the tree renders is of a node below one that is shown.
use datacenter_manager.Prelude.{
  ℕ, zero, suc, String, ◌≡◌, refl, subst, ◌⊎◌, inl, inr, Bool, true, false, Option, none, some,
  List, [], ◌∷◌, ◌++◌, map, flat_map, eq_iff, Bool-cases, In, In-map,
}
use datacenter_manager.DeviceRecords.{DeviceRead}
use datacenter_manager.InfraRecords.{
  DataCenterRead, RoomRead, RackRead, NetworkInterfaceRead, VmRead,
}
use datacenter_manager.TreeView.{
  NodeData, datacenter, room, rack, device, interface, vm, node_key, Query,
}
use datacenter_manager.TreeView.Sets.{has→In}
use datacenter_manager.TreeView.Rows.{
  TreeRow, Item, tree_row, empty_hint, View, loaded, hint_if_empty, when, is_open, ifaces_of,
  vms_of, blades_of, is_blade_chassis, has_no_children, device_node, rack_node, room_node,
  datacenter_node, node_row, leaf_row, interface_item, vm_item,
}
use datacenter_manager.TreeView.Visible.{
  Cached, Below, itself, under, Shows, Shows-flat_map, Shows-append,
}

module _ (lower : String → String) (v : View) (m : NodeData) (j : ℕ) where
  -- What a node that is expanded shows: itself, or what is under it.
  opened :
      (n : NodeData) (k : ℕ) (row : TreeRow) (rest : List Item)
      → row.on_select ≡ n
      → row.depth ≡ k
      → Shows (tree_row row ∷ when (is_open v n) rest) m j
      → ((n ≡ m) × (k ≡ j)) ⊎ (In (node_key n) v.expanded × Shows rest m j)
  unfolding Shows
  opened n k row rest en ek (r, inl e, em, ej) = let same : row ≡ r = cc e in inl (cc, cc)
  opened n k row rest en ek (r, inr i, em, ej) = elim (Bool-cases (is_open v n)) [
    | inl open_now ↦ inr (has→In (node_key n) v.expanded open_now, (r, rw open_now at i, em, ej))
    | inr closed ↦ absurd (rw closed at i)
  ]

  at_itself : (n : NodeData) (k : ℕ) → (n ≡ m) × (k ≡ j) → Below v n k m j
  at_itself n k (e, d) = subst (λ p. Below v n k p j) e (subst (λ i. Below v n k n i) d itself)

  no_hint :
      {A : Type 0} (f : Bool) (o : Option (List A)) (k : ℕ) (s : String)
      → ¬ (Shows (hint_if_empty f o k s) m j)
  unfolding Shows
  no_hint f none k s (r, i, e, d) = absurd i
  no_hint f (some (x ∷ xs)) k s (r, i, e, d) = absurd i
  no_hint true (some []) k s (r, i, e, d) = absurd i
  no_hint false (some []) k s (r, inl i, e, d) = absurd (cc)
  no_hint false (some []) k s (r, inr i, e, d) = absurd i

  no_device_hint : (b : Bool) (k : ℕ) (s : String) → ¬ (Shows (when b (empty_hint k s ∷ [])) m j)
  unfolding Shows
  no_device_hint true k s (r, inl i, e, d) = absurd (cc)
  no_device_hint true k s (r, inr i, e, d) = absurd i
  no_device_hint false k s (r, i, e, d) = absurd i

  -- A single row.
  Shows-map :
      {A : Type 0} (row : A → TreeRow) (n : A → NodeData) (k : ℕ) (xs : List A)
      → ((a : A) → ((row a).on_select ≡ n a) × ((row a).depth ≡ k))
      → Shows (map (λ a. tree_row (row a)) xs) m j
      → (a : A) × In a xs × Below v (n a) k m j
  unfolding Shows
  Shows-map row n k xs h (r, i, em, ej) =
      let (a, i', e) = In-map (λ b. tree_row (row b)) (tree_row r) xs i in
      let same : row a ≡ r = cc e in
      let s = (h a).0 in let d = (h a).1 in (a, i', at_itself (n a) k (cc, cc))

  not-Shows-none : ¬ (Shows [] m j)
  unfolding Shows
  not-Shows-none (r, i, e, d) = absurd i

  blades_shown :
      (d : DeviceRead) (xs : List Item)
      → Shows (when (is_blade_chassis d) xs) m j
      → (d.device_type ≡ "blade_chassis") × Shows xs m j
  blades_shown d xs s = elim (Bool-cases (is_blade_chassis d)) [
    | inl is ↦ ((eq_iff d.device_type "blade_chassis").0 is, rw is at s)
    | inr is_not ↦ absurd (not-Shows-none (rw is_not at s))
  ]

  Shows-four :
      (xs ys zs ws : List Item)
      → Shows (xs ++ ys ++ zs ++ ws) m j
      → Shows xs m j ⊎ Shows ys m j ⊎ Shows zs m j ⊎ Shows ws m j
  Shows-four xs ys zs ws s = elim (Shows-append m j (xs ++ ys ++ zs) ws s) [
    | inr d ↦ inr (inr (inr d))
    | inl t ↦ elim (Shows-append m j (xs ++ ys) zs t) [
      | inr c ↦ inr (inr (inl c))
      | inl u ↦ elim (Shows-append m j xs ys u) [ inl a ↦ inl a | inr b ↦ inr (inl b) ]
    ]
  ]

  interface-Below :
      (k : ℕ) (xs : List NetworkInterfaceRead)
      → Shows (map (interface_item lower v k) xs) m j
      → (i : NetworkInterfaceRead) × In i xs × Below v (interface i) k m j
  unfolding leaf_row
  interface-Below k xs s = Shows-map _ interface k xs (λ a. (refl, refl)) s

  vm-Below :
      (k : ℕ) (xs : List VmRead)
      → Shows (map (vm_item lower v k) xs) m j
      → (i : VmRead) × In i xs × Below v (vm i) k m j
  unfolding leaf_row
  vm-Below k xs s = Shows-map _ vm k xs (λ a. (refl, refl)) s

  -- What is under a device that is expanded, if its blades show only what is below them.
  device_kids :
      (d : DeviceRead) (k : ℕ) (f : DeviceRead → List Item)
      → ((b : DeviceRead) → Shows (f b) m j → Below v (device b) (suc k) m j)
      → In (node_key (device d)) v.expanded
      → Shows
          (when (is_blade_chassis d) (flat_map f (loaded (blades_of v d).cached))
            ++ map (interface_item lower v (suc k)) (loaded (ifaces_of v d).cached)
            ++ map (vm_item lower v (suc k)) (loaded (vms_of v d).cached)
            ++ when (has_no_children v d) (empty_hint k "No interfaces or VMs" ∷ []))
          m
          j
      → Below v (device d) k m j
  device_kids d k f blade o s = elim (Shows-four _ _ _ _ s) [
    | inl blades ↦
        let (t, s2) = blades_shown d _ blades in
        let (b, i, s3) = Shows-flat_map m j f _ s2 in under o (inl (b, t, i, refl)) (blade b s3)
    | inr (inl ifaces) ↦
        let (i, n, b) = interface-Below (suc k) (loaded (ifaces_of v d).cached) ifaces in
        under o (inr (inl (i, n, refl))) b
    | inr (inr (inl vms)) ↦
        let (i, n, b) = vm-Below (suc k) (loaded (vms_of v d).cached) vms in
        under o (inr (inr (i, n, refl))) b
    | inr (inr (inr h)) ↦ absurd (no_device_hint (has_no_children v d) k "No interfaces or VMs" h)
  ]

  device-Below :
      (fuel : ℕ) (d : DeviceRead) (k : ℕ)
      → Shows (device_node lower v fuel d k) m j
      → Below v (device d) k m j
  unfolding device_node node_row
  device-Below zero d k s = absurd (not-Shows-none s)
  device-Below (suc fuel) d k s = elim (opened (device d) k _ _ refl refl s) [
    | inl here ↦ at_itself (device d) k here
    | inr (o, s1) ↦ device_kids d k _ (λ b. device-Below fuel b (suc k)) o s1
  ]

  -- The three levels above the devices: a row, and under it the children that a query holds.
  level-Below :
      {A : Type 0} (n : NodeData) (k : ℕ) (row : TreeRow) (f : A → List Item) (q : Query (List A))
      (s : String)
      → row.on_select ≡ n
      → row.depth ≡ k
      → ((a : A)
          → In (node_key n) v.expanded
          → Cached q.cached a
          → Shows (f a) m j
          → Below v n k m j)
      → Shows
          (tree_row row
            ∷ when
                (is_open v n)
                (flat_map f (loaded q.cached) ++ hint_if_empty q.is_fetching q.cached k s))
          m
          j
      → Below v n k m j
  level-Below n k row f q s en ek child shown = elim (opened n k row _ en ek shown) [
    | inl here ↦ at_itself n k here
    | inr (o, s1) ↦ elim (Shows-append m j _ _ s1) [
      | inl kids ↦ let (a, i, s2) = Shows-flat_map m j f _ kids in child a o i s2
      | inr h ↦ absurd (no_hint q.is_fetching q.cached k s h)
    ]
  ]

  rack-Below :
      (fuel : ℕ) (r : RackRead) (k : ℕ)
      → Shows (rack_node lower v fuel r k) m j
      → Below v (rack r) k m j
  unfolding rack_node node_row
  rack-Below fuel r k s =
      level-Below (rack r) k _ _ (v.queries.tree_devices_rack r.id) _ refl refl
        (λ d o i t. under o (d, i, refl) (device-Below fuel d (suc k) t)) s

  room-Below :
      (fuel : ℕ) (r : RoomRead) (k : ℕ)
      → Shows (room_node lower v fuel r k) m j
      → Below v (room r) k m j
  unfolding room_node node_row
  room-Below fuel r k s =
      level-Below (room r) k _ _ (v.queries.tree_racks r.id) _ refl refl
        (λ d o i t. under o (d, i, refl) (rack-Below fuel d (suc k) t)) s

  pub datacenter-Below :
      (fuel : ℕ) (dc : DataCenterRead) (k : ℕ)
      → Shows (datacenter_node lower v fuel dc k) m j
      → Below v (datacenter dc) k m j
  unfolding datacenter_node node_row
  datacenter-Below fuel dc k s =
      level-Below (datacenter dc) k _ _ (v.queries.tree_rooms dc.id) _ refl refl
        (λ d o i t. under o (d, i, refl) (room-Below fuel d (suc k) t)) s
