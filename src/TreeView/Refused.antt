-- ===== src/TreeView/Refused.antt =====
-- The tree view against the limit of the server's pages.
use datacenter_manager.Prelude.{
  ℕ, String, true, some, List, ◌≡◌, ◌≢◌, refl, inl, inr, Option, none, In, lookup, arith,
}
use datacenter_manager.DeviceRecords.{DeviceRead}
use datacenter_manager.InfraRecords.{
  DataCenterRead, RoomRead, RackRead, NetworkInterfaceRead, VmRead,
}
use datacenter_manager.Api.Server.{Server, sent_size, unprocessable}
use datacenter_manager.Api.Physical.{use_data_centers}
use datacenter_manager.Api.Tree.{
  use_tree_rooms, use_tree_racks, use_tree_devices, use_tree_interfaces, use_tree_vms,
  use_tree_blades,
}
use datacenter_manager.TreeView.{NodeData, datacenter, room, rack, device, interface, vm, Queries}
use datacenter_manager.TreeView.Rows.{View, host_id}
use datacenter_manager.TreeView.Visible.{Cached, Child, Below, itself, under, Visible}

-- The query library keeps what a request answered, and no request that was refused with 422 answered
-- anything. The keys are the tree view's own, so that nothing else puts data under them.
pub record FromServer (s : Server) (q : Queries) : Type 0 where
  pub rooms :
      (id : String) (xs : List RoomRead)
      → (q.tree_rooms id).cached ≡ some xs
      → s.answer (use_tree_rooms id true).request ≢ unprocessable
  pub racks :
      (id : String) (xs : List RackRead)
      → (q.tree_racks id).cached ≡ some xs
      → s.answer (use_tree_racks id true).request ≢ unprocessable
  pub devices :
      (id : String) (xs : List DeviceRead)
      → (q.tree_devices_rack id).cached ≡ some xs
      → s.answer (use_tree_devices id true).request ≢ unprocessable
  pub interfaces :
      (id : String) (xs : List NetworkInterfaceRead)
      → (q.tree_ifaces id).cached ≡ some xs
      → s.answer (use_tree_interfaces id true).request ≢ unprocessable
  pub vms :
      (id : String) (xs : List VmRead)
      → (q.tree_vms id).cached ≡ some xs
      → s.answer (use_tree_vms id true).request ≢ unprocessable
  pub blades :
      (id : String) (xs : List DeviceRead)
      → (q.tree_blades id).cached ≡ some xs
      → s.answer (use_tree_blades id true).request ≢ unprocessable

module _ {A : Type 0} where
  -- A list that is never answered is never in the cache.
  unanswered : (o : Option (List A)) (a : A) → ((xs : List A) → o ≡ some xs → ⊥) → Cached o a → ⊥
  unanswered none a h m = m
  unanswered (some xs) a h m = h xs refl

module _ (s : Server) (v : View) (from : FromServer s v.queries) where
  childless : (n c : NodeData) → Child v n c → ⊥
  unfolding sent_size lookup
  childless (datacenter dc) c (r, m, e) =
      unanswered _ r
        (λ xs h. from.rooms dc.id xs h (s.too_large _ _ 100 500 refl refl refl (omega arith))) m
  childless (room r) c (k, m, e) =
      unanswered _ k
        (λ xs h. from.racks r.id xs h (s.too_large _ _ 100 500 refl refl refl (omega arith))) m
  childless (rack k) c (d, m, e) =
      unanswered _ d
        (λ xs h. from.devices k.id xs h (s.too_large _ _ 100 500 refl refl refl (omega arith))) m
  childless (device d) c (inl (b, t, m, e)) =
      unanswered _ b
        (λ xs h. from.blades d.id xs h (s.too_large _ _ 100 200 refl refl refl (omega arith))) m
  childless (device d) c (inr (inl (i, m, e))) =
      unanswered _ i
        (λ xs h. from.interfaces d.id xs h (s.too_large _ _ 100 200 refl refl refl (omega arith))) m
  childless (device d) c (inr (inr (x, m, e))) =
      let id = host_id (v.queries.tree_vhost d.id).cached in
      unanswered (v.queries.tree_vms id).cached x
        (λ xs h. from.vms id xs h (s.too_large _ _ 100 500 refl refl refl (omega arith))) m
  childless (interface i) c x = x
  childless (vm x) c y = y

top :
    (s : Server) (v : View) (dcs : List DataCenterRead)
    → FromServer s v.queries
    → {n : NodeData} {k : ℕ} (dc : DataCenterRead) → In dc dcs
    → Below v (datacenter dc) 0 n k
    → (k ≡ 0) × ((c : DataCenterRead) × In c dcs × (n ≡ datacenter c))
top s v dcs from dc m itself = (refl, (dc, m, refl))
top s v dcs from dc m (under {c} o x b) = absurd (childless s v from (datacenter dc) c x)

-- The tree's pages are larger than the server allows. The request for its root is refused with 422,
-- and whatever datacenters it were given and whatever is expanded, with a cache of what the server
-- answered it shows no node but the datacenters, at depth 0.
pub Visible-refused :
    (s : Server) (v : View) (dcs : List DataCenterRead)
    → FromServer s v.queries
    → (n : NodeData) (k : ℕ)
    → (s.answer (use_data_centers 1 200).request ≡ unprocessable)
      × (Visible v dcs n k → (k ≡ 0) × ((dc : DataCenterRead) × In dc dcs × (n ≡ datacenter dc)))
unfolding Visible sent_size lookup
Visible-refused s v dcs from n k = (
  s.too_large _ _ 100 200 refl refl refl (omega arith),
  λ shown. let (dc, m, below) = shown in top s v dcs from dc m below,
)
