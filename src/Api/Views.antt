-- ===== src/Api/Views.antt =====
-- The queries of the topology and of the tree view, most of which have keys of their own.
use datacenter_manager.Prelude.{
  String, Bool, true, false, List, [], ◌∷◌, ◌≡◌, ◌⊎◌, inl, inr, refl, sym, ap, ◌∙◌, any, In, arith,
  Option,
}
use datacenter_manager.Api.{KeyPart, name, Query, Mutation}
use datacenter_manager.Api.Hooks.{IsTopologyQuery, IsDetail, IsMutation}
use datacenter_manager.Api.Physical.{use_data_centers}
use datacenter_manager.Api.Topology.{use_datacenters, use_blades_of_chassis}
use datacenter_manager.Api.Tree.{IsTreeQuery}
use datacenter_manager.Api.Refresh.{
  Matching, refreshes, view_names, begins_otherwise, all, is_apart, mutation-Whole,
}

detail-apart : {m : Mutation} → IsDetail m → is_apart m.invalidates ≡ true
detail-apart (IsDetail.upsert_server_detail device_id body) = refl
detail-apart (IsDetail.upsert_network_detail device_id body) = refl
detail-apart (IsDetail.upsert_pdu_detail device_id body) = refl
detail-apart (IsDetail.trigger_sync id) = refl
detail-apart (IsDetail.reset_user_password id new_password) = refl

mutation-apart : {m : Mutation} → IsMutation m ⊎ IsDetail m → is_apart m.invalidates ≡ true
mutation-apart (inl h) = (mutation-Whole h).1
mutation-apart (inr d) = detail-apart d

all-In : {A : Type 0} (p : A → Bool) (xs : List A) (a : A) → all p xs ≡ true → In a xs → p a ≡ true
all-In p [] a h m = absurd m
all-In p (x ∷ xs) a h (inl e) = let t : p x ≡ true = ground arith in ap p (sym e) ∙ t
all-In p (x ∷ xs) a h (inr m) = all-In p xs a (ground arith) m

-- All the queries of the topology's canvases and of the tree view, whose root is the first page of 200
-- datacenters. Those of the datacenters and of a chassis's blades are kept under the key of a resource.
pub data IsViewQuery : Query → Type 0 where
  topology : {q : Query} → IsTopologyQuery q → IsViewQuery q
  tree :
      {f : String → Bool → Query}
      → IsTreeQuery f
      → (id : String) (on : Bool) → IsViewQuery (f id on)
  tree_root : IsViewQuery (use_data_centers 1 200)
  datacenters : IsViewQuery use_datacenters
  blades : (chassis_id : Option String) → IsViewQuery (use_blades_of_chassis chassis_id)

abbrev pub is_shared : {q : Query} → IsViewQuery q → Bool
is_shared (topology h) = false
is_shared (tree h id on) = false
is_shared tree_root = true
is_shared datacenters = true
is_shared (blades chassis_id) = true

abbrev Viewed : Query → Type 0
Viewed q = (x : String) × In x view_names × (k : List KeyPart) × (q.key ≡ name x ∷ k)

topology-Viewed : {q : Query} → IsTopologyQuery q → Viewed q
topology-Viewed (IsTopologyQuery.physical_topology datacenter_id) = ("topology", inl refl, _, refl)
topology-Viewed (IsTopologyQuery.network_topology datacenter_id vlan_id) =
    ("topology", inl refl, _, refl)
topology-Viewed (IsTopologyQuery.floor_plan datacenter_id) = ("topology", inl refl, _, refl)
topology-Viewed (IsTopologyQuery.rack_elevation rack_id) = ("topology", inl refl, _, refl)
topology-Viewed (IsTopologyQuery.hop_path from to) = ("topology", inl refl, _, refl)

tree-Viewed :
    {f : String → Bool → Query} → IsTreeQuery f → (id : String) (on : Bool) → Viewed (f id on)
tree-Viewed IsTreeQuery.rooms id on = ("tree-rooms", inr (inl refl), _, refl)
tree-Viewed IsTreeQuery.racks id on = ("tree-racks", inr (inr (inl refl)), _, refl)
tree-Viewed IsTreeQuery.devices id on = ("tree-devices-rack", inr (inr (inr (inl refl))), _, refl)
tree-Viewed IsTreeQuery.interfaces id on =
    ("tree-ifaces", inr (inr (inr (inr (inl refl)))), _, refl)
tree-Viewed IsTreeQuery.virt_host id on =
    ("tree-vhost", inr (inr (inr (inr (inr (inl refl))))), _, refl)
tree-Viewed IsTreeQuery.vms id on =
    ("tree-vms", inr (inr (inr (inr (inr (inr (inl refl)))))), _, refl)
tree-Viewed IsTreeQuery.blades id on =
    ("tree-blades", inr (inr (inr (inr (inr (inr (inr (inl refl))))))), _, refl)

module _ (library : Matching) where
  unmatched :
      (x : String) (k : List KeyPart) (ps : List (List KeyPart))
      → all (begins_otherwise x) ps ≡ true
      → any (λ p. library.matches p (name x ∷ k)) ps ≡ false
  unmatched x k [] h = refl
  unmatched x k ((name s ∷ p) ∷ ps) h = ground (arith, library.differs [] s x p k, unmatched x k ps)
  unmatched x k ((KeyPart.filter o ∷ p) ∷ ps) h = absurd (cc)
  unmatched x k ((KeyPart.count n ∷ p) ∷ ps) h = absurd (cc)
  unmatched x k ((KeyPart.missing ∷ p) ∷ ps) h = absurd (cc)
  unmatched x k ([] ∷ ps) h = absurd (cc)

  unrefreshed :
      (m : Mutation) (q : Query)
      → is_apart m.invalidates ≡ true
      → Viewed q
      → refreshes library m q ≡ false
  unrefreshed m q apart (x, member, k, e) =
      ap (λ (key : List KeyPart). any (λ p. library.matches p key) m.invalidates) e
      ∙ unmatched x k m.invalidates
          (all-In (λ x. all (begins_otherwise x) m.invalidates) view_names x apart member)

  -- A query that the topology and the tree view keep under a key of their own is asked for again by no
  -- hook that creates, updates or deletes something, acknowledges an alert, saves one of a device's
  -- extension tables, triggers a sync or resets a password.
  pub refreshes-own_key :
      (m : Mutation) (q : Query)
      → IsMutation m ⊎ IsDetail m
      → (v : IsViewQuery q) → is_shared v ≡ false
      → refreshes library m q ≡ false
  refreshes-own_key m q h (topology t) e = unrefreshed m q (mutation-apart h) (topology-Viewed t)
  refreshes-own_key m q h (tree t id on) e =
      unrefreshed m q (mutation-apart h) (tree-Viewed t id on)
  refreshes-own_key m q h tree_root e = absurd (cc)
  refreshes-own_key m q h datacenters e = absurd (cc)
  refreshes-own_key m q h (blades chassis_id) e = absurd (cc)
