-- ===== src/TreeView/Visible.antt =====
-- Which nodes the tree shows, as a relation over what is expanded and what is cached, and that the
-- rows are those nodes' rows.
use datacenter_manager.Prelude.{
  ℕ, suc, ◌≡◌, refl, ◌⊎◌, inl, inr, Option, List, ◌++◌, flat_map, In, In-append, In-append_left,
  In-append_right, In-flat_map, In-flat_map_intro,
}
use datacenter_manager.DeviceRecords.{DeviceRead}
use datacenter_manager.InfraRecords.{
  DataCenterRead, RoomRead, RackRead, NetworkInterfaceRead, VmRead,
}
use datacenter_manager.TreeView.{NodeData, datacenter, room, rack, device, interface, vm, node_key}
use datacenter_manager.TreeView.Rows.{TreeRow, Item, tree_row, View, loaded, host_id}

-- `a` is in the list that a query holds.
abbrev pub Cached : {A : Type 0} → Option (List A) → A → Type 0
Cached o a = In a (loaded o)

-- `c` hangs directly under a node in the cache.
abbrev pub Child : View → NodeData → NodeData → Type 0
Child v (datacenter dc) c =
    (r : RoomRead) × Cached (v.queries.tree_rooms dc.id).cached r × (c ≡ room r)
Child v (room r) c = (k : RackRead) × Cached (v.queries.tree_racks r.id).cached k × (c ≡ rack k)
Child v (rack k) c =
    (d : DeviceRead) × Cached (v.queries.tree_devices_rack k.id).cached d × (c ≡ device d)
Child v (device d) c =
    ((b : DeviceRead) × (d.device_type ≡ "blade_chassis")
      × Cached (v.queries.tree_blades d.id).cached b
      × (c ≡ device b))
    ⊎ ((i : NetworkInterfaceRead) × Cached (v.queries.tree_ifaces d.id).cached i
        × (c ≡ interface i))
    ⊎ ((m : VmRead) × Cached
          (v.queries.tree_vms (host_id (v.queries.tree_vhost d.id).cached)).cached m
        × (c ≡ vm m))
Child v (interface i) c = ⊥
Child v (vm m) c = ⊥

-- `Below v n k m j`: with `n` shown at depth `k`, `m` is shown at depth `j`, `n` or under it.
pub data Below (v : View) : NodeData → ℕ → NodeData → ℕ → Type 0 where
  itself : {n : NodeData} {k : ℕ} → Below v n k n k
  under :
      {n c m : NodeData} {k j : ℕ}
      → In (node_key n) v.expanded
      → Child v n c
      → Below v c (suc k) m j
      → Below v n k m j

-- `m` is shown at depth `j`: every node above it is expanded, and its children are loaded.
unfoldable pub Visible : View → List DataCenterRead → NodeData → ℕ → Type 0
Visible v dcs m j = (dc : DataCenterRead) × In dc dcs × Below v (datacenter dc) 0 m j

-- Among the items is the row of `m`, at depth `j`.
unfoldable pub Shows : List Item → NodeData → ℕ → Type 0
Shows items m j = (r : TreeRow) × In (tree_row r) items × (r.on_select ≡ m) × (r.depth ≡ j)

module _ (m : NodeData) (j : ℕ) where
  pub Shows-flat_map :
      {A : Type 0} (f : A → List Item) (xs : List A)
      → Shows (flat_map f xs) m j
      → (a : A) × In a xs × Shows (f a) m j
  unfolding Shows
  Shows-flat_map f xs (r, i, e, d) =
      let (a, n, i') = In-flat_map f (tree_row r) xs i in (a, n, (r, i', e, d))

  pub Shows-flat_map_intro :
      {A : Type 0} (f : A → List Item) (a : A) (xs : List A)
      → In a xs
      → Shows (f a) m j
      → Shows (flat_map f xs) m j
  unfolding Shows
  Shows-flat_map_intro f a xs n (r, i, e, d) = (r, In-flat_map_intro f a (tree_row r) xs n i, e, d)

  pub Shows-append : (xs ys : List Item) → Shows (xs ++ ys) m j → Shows xs m j ⊎ Shows ys m j
  unfolding Shows
  Shows-append xs ys (r, i, e, d) = elim (In-append (tree_row r) xs ys i) [
    | inl l ↦ inl (r, l, e, d)
    | inr k ↦ inr (r, k, e, d)
  ]

  pub Shows-left : (xs ys : List Item) → Shows xs m j → Shows (xs ++ ys) m j
  unfolding Shows
  Shows-left xs ys (r, i, e, d) = (r, In-append_left (tree_row r) xs ys i, e, d)

  pub Shows-right : (xs ys : List Item) → Shows ys m j → Shows (xs ++ ys) m j
  unfolding Shows
  Shows-right xs ys (r, i, e, d) = (r, In-append_right (tree_row r) xs ys i, e, d)

pub Below-cases :
    {v : View} {n m : NodeData} {k j : ℕ}
    → Below v n k m j
    → ((n ≡ m) × (k ≡ j))
      ⊎ ((c : NodeData) × In (node_key n) v.expanded × Child v n c × Below v c (suc k) m j)
Below-cases itself = inl (refl, refl)
Below-cases (under {c = c} o h b) = inr (c, o, h, b)
