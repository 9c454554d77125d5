-- ===== src/TreeView/Expansion.antt =====
-- What Expand All adds to the expanded nodes.
use datacenter_manager.Prelude.{
  String, ◌≡◌, refl, sym, subst, ◌⊎◌, ◌↔◌, inl, inr, Option, none, some, List, [], ◌∷◌, In,
}
use datacenter_manager.DeviceRecords.{DeviceRead}
use datacenter_manager.InfraRecords.{DataCenterRead, RoomRead, RackRead}
use datacenter_manager.TreeView.{
  NodeData, datacenter, room, rack, device, interface, vm, node_key, Queries, add, for_each,
  for_each_cached, expand_device, expand_rack, expand_room, expand_datacenter, expand_all,
}
use datacenter_manager.TreeView.Sets.{In-add, In-add_new, In-add_old}
use datacenter_manager.TreeView.Visible.{Cached}

-- A datacenter, room, rack or device of a rack that the cache leads to, expanded or not.
pub data Loaded (q : Queries) (dcs : List DataCenterRead) : NodeData → Type 0 where
  loaded_datacenter : {dc : DataCenterRead} → In dc dcs → Loaded q dcs (datacenter dc)
  loaded_room :
      {dc : DataCenterRead} {r : RoomRead}
      → Loaded q dcs (datacenter dc)
      → Cached (q.tree_rooms dc.id).cached r
      → Loaded q dcs (room r)
  loaded_rack :
      {r : RoomRead} {k : RackRead}
      → Loaded q dcs (room r)
      → Cached (q.tree_racks r.id).cached k
      → Loaded q dcs (rack k)
  loaded_device :
      {k : RackRead} {d : DeviceRead}
      → Loaded q dcs (rack k)
      → Cached (q.tree_devices_rack k.id).cached d
      → Loaded q dcs (device d)

-- `f` adds to a set just what satisfies `P`.
abbrev Adds : (List String → List String) → (String → Type 0) → Type 0
Adds f P = (j : String) (s : List String) → In j (f s) ↔ (In j s ⊎ P j)

module _ {A : Type 0} (f : A → List String → List String) (P : A → String → Type 0)
    (adds : (a : A) → Adds (f a) (P a)) where
  for_each-Adds : (xs : List A) → Adds (for_each f xs) (λ j. (a : A) × In a xs × P a j)
  for_each-Adds [] j s = (inl, λ h. elim h [ inl m ↦ m | inr (a, i, p) ↦ absurd i ])
  for_each-Adds (x ∷ xs) j s =
      let ih = for_each-Adds xs j (f x s) in
      let one = adds x j s in
      (
        λ m. elim (ih.0 m) [
          | inl l ↦ elim (one.0 l) [ inl old ↦ inl old | inr p ↦ inr (x, inl refl, p) ]
          | inr (a, i, p) ↦ inr (a, inr i, p)
        ],
        λ h. elim h [
          | inl old ↦ ih.1 (inl (one.1 (inl old)))
          | inr (a, inl e, p) ↦ ih.1 (inl (one.1 (inr (subst (λ y. P y j) (sym e) p))))
          | inr (a, inr i, p) ↦ ih.1 (inr (a, i, p))
        ],
      )

  for_each_cached-Adds :
      (o : Option (List A)) → Adds (for_each_cached f o) (λ j. (a : A) × Cached o a × P a j)
  for_each_cached-Adds none j s = (inl, λ h. elim h [ inl m ↦ m | inr (a, i, p) ↦ absurd i ])
  for_each_cached-Adds (some xs) j s = for_each-Adds xs j s

  -- A node's own key, and then its children.
  node-Adds :
      (key : String) (o : Option (List A))
      → Adds
          (λ s. for_each_cached f o (add key s))
          (λ j. (key ≡ j) ⊎ ((a : A) × Cached o a × P a j))
  node-Adds key o j s =
      let r = for_each_cached-Adds o j (add key s) in
      (
        λ m. elim (r.0 m) [
          | inl l ↦ elim (In-add j key s l) [ inl old ↦ inl old | inr e ↦ inr (inl e) ]
          | inr below ↦ inr (inr below)
        ],
        λ h. elim h [
          | inl old ↦ r.1 (inl (In-add_old j key s old))
          | inr (inl e) ↦ r.1 (inl (subst (λ i. In i (add key s)) e (In-add_new key s)))
          | inr (inr below) ↦ r.1 (inr below)
        ],
      )

abbrev OfDevice : DeviceRead → String → Type 0
OfDevice d j = node_key (device d) ≡ j

abbrev OfRack : Queries → RackRead → String → Type 0
OfRack q k j =
    (node_key (rack k) ≡ j)
    ⊎ ((d : DeviceRead) × Cached (q.tree_devices_rack k.id).cached d × OfDevice d j)

abbrev OfRoom : Queries → RoomRead → String → Type 0
OfRoom q r j =
    (node_key (room r) ≡ j) ⊎ ((k : RackRead) × Cached (q.tree_racks r.id).cached k × OfRack q k j)

abbrev OfDatacenter : Queries → DataCenterRead → String → Type 0
OfDatacenter q dc j =
    (node_key (datacenter dc) ≡ j)
    ⊎ ((r : RoomRead) × Cached (q.tree_rooms dc.id).cached r × OfRoom q r j)

expand_device-Adds : (d : DeviceRead) → Adds (expand_device d) (OfDevice d)
unfolding expand_device
expand_device-Adds d j s = (
  In-add j (node_key (device d)) s,
  λ h. elim h [
    | inl old ↦ In-add_old j (node_key (device d)) s old
    | inr e ↦ subst (λ i. In i (add (node_key (device d)) s)) e (In-add_new (node_key (device d)) s)
  ],
)

module _ (q : Queries) where
  expand_rack-Adds : (k : RackRead) → Adds (expand_rack q k) (OfRack q k)
  unfolding expand_rack
  expand_rack-Adds k =
      node-Adds expand_device OfDevice expand_device-Adds (node_key (rack k))
        (q.tree_devices_rack k.id).cached

  expand_room-Adds : (r : RoomRead) → Adds (expand_room q r) (OfRoom q r)
  unfolding expand_room
  expand_room-Adds r =
      node-Adds (expand_rack q) (OfRack q) expand_rack-Adds (node_key (room r))
        (q.tree_racks r.id).cached

  expand_datacenter-Adds : (dc : DataCenterRead) → Adds (expand_datacenter q dc) (OfDatacenter q dc)
  unfolding expand_datacenter
  expand_datacenter-Adds dc =
      node-Adds (expand_room q) (OfRoom q) expand_room-Adds (node_key (datacenter dc))
        (q.tree_rooms dc.id).cached

module _ (q : Queries) (dcs : List DataCenterRead) where
  Loaded-of :
      (j : String)
      → ((dc : DataCenterRead) × In dc dcs × OfDatacenter q dc j)
      → (n : NodeData) × Loaded q dcs n × (node_key n ≡ j)
  Loaded-of j (dc, i, inl e) = (datacenter dc, loaded_datacenter i, e)
  Loaded-of j (dc, i, inr (r, ir, inl e)) = (room r, loaded_room (loaded_datacenter i) ir, e)
  Loaded-of j (dc, i, inr (r, ir, inr (k, ik, inl e))) =
      (rack k, loaded_rack (loaded_room (loaded_datacenter i) ir) ik, e)
  Loaded-of j (dc, i, inr (r, ir, inr (k, ik, inr (d, id, e)))) =
      (device d, loaded_device (loaded_rack (loaded_room (loaded_datacenter i) ir) ik) id, e)

  of-Loaded :
      (n : NodeData)
      → Loaded q dcs n
      → (dc : DataCenterRead) × In dc dcs × OfDatacenter q dc (node_key n)
  of-Loaded (interface i) l = elim l [ ]
  of-Loaded (vm m) l = elim l [ ]
  of-Loaded (datacenter dc) (loaded_datacenter i) = (dc, i, inl refl)
  of-Loaded (room r) (loaded_room {dc = dc} (loaded_datacenter i) ir) =
      (dc, i, inr (r, ir, inl refl))
  of-Loaded (rack k) (loaded_rack {r = r} (loaded_room {dc = dc} (loaded_datacenter i) ir) ik) =
      (dc, i, inr (r, ir, inr (k, ik, inl refl)))
  of-Loaded (device d)
        (loaded_device {k = k}
          (loaded_rack {r = r} (loaded_room {dc = dc} (loaded_datacenter i) ir) ik)
          id) =
      (dc, i, inr (r, ir, inr (k, ik, inr (d, id, refl))))

  -- Expand All keeps what is expanded and adds the key of every datacenter and of every room, rack
  -- and device of a rack that the cache leads to, and no other: not of a blade in a chassis.
  pub expand_all-lem :
      (expanded : List String) (j : String)
      → In j (expand_all q dcs expanded)
        ↔ (In j expanded ⊎ ((n : NodeData) × Loaded q dcs n × (node_key n ≡ j)))
  unfolding expand_all
  expand_all-lem expanded j =
      let r =
        for_each-Adds (expand_datacenter q) (OfDatacenter q) (expand_datacenter-Adds q) dcs j
          expanded in
      (
        λ m. elim (r.0 m) [ inl old ↦ inl old | inr new ↦ inr (Loaded-of j new) ],
        λ h. elim h [
          | inl old ↦ r.1 (inl old)
          | inr (n, l, e) ↦ r.1 (
              inr (
                subst (λ i. (dc : DataCenterRead) × In dc dcs × OfDatacenter q dc i) e
                  (of-Loaded n l)))
        ],
      )
