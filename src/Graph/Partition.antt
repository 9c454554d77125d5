-- ===== src/Graph/Partition.antt =====
-- Grouping by rack splits the devices by their rack, each list in the order of the API.
use mathlib.Core.List.{append_assoc, append-nil}
use datacenter_manager.Prelude.{
  String, ◌≡◌, refl, sym, ap, ◌∙◌, inl, inr, Bool, true, false, not, Option, none, some, List, [],
  ◌∷◌, ◌++◌, filter, str_eq, eq_iff, lookup, if◌then◌else◌, Bool-cases, arith,
}
use datacenter_manager.Graph.{RawTopologyNode}
use datacenter_manager.Graph.Grouping.{
  RackEntry, Grouped, rack_of, push_device, place, group_nodes, nothing_grouped,
}

abbrev pub entry_devices : Option RackEntry → List RawTopologyNode
entry_devices none = []
entry_devices (some e) = e.devices

-- The devices under the node of a rack.
abbrev pub devices_of : String → Grouped → List RawTopologyNode
devices_of r g = entry_devices (lookup r g.rack_map)

abbrev pub is_rack : Option String → String → Bool
is_rack none r = false
is_rack (some k) r = str_eq k r

abbrev pub has_rack : Option String → Bool
has_rack none = false
has_rack (some r) = true

lookup-push_device :
    (r k : String) (n : RawTopologyNode) (m : List (String × RackEntry))
    → entry_devices (lookup r (push_device k n m))
      ≡ entry_devices (lookup r m) ++ (if str_eq k r then n ∷ [] else [])
unfolding push_device lookup
lookup-push_device r k n [] = elim (Bool-cases (str_eq k r)) [
  | inl same ↦ rw same refl
  | inr other ↦ rw other refl
]
lookup-push_device r k n ((j, e) ∷ m) = elim (Bool-cases (str_eq j k)) [
  | inl jk ↦ elim (Bool-cases (str_eq k r)) [
    | inl kr ↦
        let jr : str_eq j r ≡ true = (eq_iff j r).1 ((eq_iff j k).0 jk ∙ (eq_iff k r).0 kr) in
        rw (jk, kr, jr) refl
    | inr kr ↦
        let jr : str_eq j r ≡ false = ground (arith, eq_iff j r, eq_iff j k, eq_iff k r) in
        rw (jk, kr, jr) (sym (append-nil _))
  ]
  | inr jk ↦ elim (Bool-cases (str_eq j r)) [
    | inl jr ↦
        let kr : str_eq k r ≡ false = ground (arith, eq_iff j r, eq_iff j k, eq_iff k r) in
        rw (jk, jr, kr) (sym (append-nil _))
    | inr jr ↦ rw (jk, jr) (lookup-push_device r k n m)
  ]
]

append_one :
    (xs ys : List RawTopologyNode) (b : Bool) (n : RawTopologyNode)
    → (xs ++ (if b then n ∷ [] else [])) ++ ys ≡ xs ++ (if b then n ∷ ys else ys)
append_one xs ys true n = append_assoc xs (n ∷ []) ys
append_one xs ys false n = ap (λ zs. zs ++ ys) (append-nil xs)

devices_of-place :
    (r : String) (o : Option String) (n : RawTopologyNode) (g : Grouped)
    → devices_of r (place o n g) ≡ devices_of r g ++ (if is_rack o r then n ∷ [] else [])
devices_of-place r none n g = sym (append-nil _)
devices_of-place r (some k) n g = lookup-push_device r k n g.rack_map

no_rack-place :
    (o : Option String) (n : RawTopologyNode) (g : Grouped)
    → (place o n g).no_rack ≡ g.no_rack ++ (if not (has_rack o) then n ∷ [] else [])
no_rack-place none n g = refl
no_rack-place (some k) n g = sym (append-nil _)

devices_of-group_nodes :
    (r : String) (ns : List RawTopologyNode) (g : Grouped)
    → devices_of r (group_nodes ns g) ≡ devices_of r g ++ filter (λ n. is_rack (rack_of n) r) ns
unfolding group_nodes
devices_of-group_nodes r [] g = sym (append-nil _)
devices_of-group_nodes r (n ∷ ns) g =
    devices_of-group_nodes r ns (place (rack_of n) n g)
    ∙ ap (λ l. l ++ filter (λ n. is_rack (rack_of n) r) ns) (devices_of-place r (rack_of n) n g)
    ∙ append_one (devices_of r g) (filter (λ n. is_rack (rack_of n) r) ns) (is_rack (rack_of n) r) n

no_rack-group_nodes :
    (ns : List RawTopologyNode) (g : Grouped)
    → (group_nodes ns g).no_rack ≡ g.no_rack ++ filter (λ n. not (has_rack (rack_of n))) ns
unfolding group_nodes
no_rack-group_nodes [] g = sym (append-nil _)
no_rack-group_nodes (n ∷ ns) g =
    no_rack-group_nodes ns (place (rack_of n) n g)
    ∙ ap (λ l. l ++ filter (λ n. not (has_rack (rack_of n))) ns) (no_rack-place (rack_of n) n g)
    ∙ append_one g.no_rack (filter (λ n. not (has_rack (rack_of n))) ns)
        (not (has_rack (rack_of n))) n

-- The keys of a map are distinct.
abbrev pub Distinct : List (String × RackEntry) → Type 0
Distinct [] = Unit
Distinct ((k, e) ∷ m) = (lookup k m ≡ none) × Distinct m

lookup_other :
    (j k : String) (n : RawTopologyNode) (m : List (String × RackEntry))
    → str_eq k j ≡ false
    → lookup j m ≡ none
    → lookup j (push_device k n m) ≡ none
unfolding push_device lookup
lookup_other j k n [] h e = rw h refl
lookup_other j k n ((i, x) ∷ m) h e = elim (Bool-cases (str_eq i k)) [
  | inl ik ↦ elim (Bool-cases (str_eq i j)) [
    | inl ij ↦ absurd (cc (rw ij at e))
    | inr ij ↦ rw (ik, ij) (rw ij at e)
  ]
  | inr ik ↦ elim (Bool-cases (str_eq i j)) [
    | inl ij ↦ absurd (cc (rw ij at e))
    | inr ij ↦ rw (ik, ij) (lookup_other j k n m h (rw ij at e))
  ]
]

push_device-Distinct :
    (k : String) (n : RawTopologyNode) (m : List (String × RackEntry))
    → Distinct m
    → Distinct (push_device k n m)
unfolding push_device lookup
push_device-Distinct k n [] d = (refl, tt)
push_device-Distinct k n ((j, e) ∷ m) d = elim (Bool-cases (str_eq j k)) [
  | inl jk ↦ rw jk d
  | inr jk ↦
      let kj : str_eq k j ≡ false = ground (arith, eq_iff j k, eq_iff k j) in
      rw jk (lookup_other j k n m kj d.0, push_device-Distinct k n m d.1)
]

group_nodes-Distinct :
    (ns : List RawTopologyNode) (g : Grouped)
    → Distinct g.rack_map
    → Distinct (group_nodes ns g).rack_map
unfolding group_nodes
group_nodes-Distinct [] g d = d
group_nodes-Distinct (n ∷ ns) g d =
    group_nodes-Distinct ns (place (rack_of n) n g) (placed (rack_of n) d)
  where
    placed : (o : Option String) → Distinct g.rack_map → Distinct (place o n g).rack_map
    placed none d = d
    placed (some k) d = push_device-Distinct k n g.rack_map d

-- The loop that groups the graph's devices makes one node for each rack, under it the devices whose
-- rack it is, and leaves the devices without a rack, or with an empty rack id, apart: both in the
-- order of the API.
pub group_nodes-filter :
    (ns : List RawTopologyNode) (r : String)
    → (devices_of r (group_nodes ns nothing_grouped) ≡ filter (λ n. is_rack (rack_of n) r) ns)
      × ((group_nodes ns nothing_grouped).no_rack ≡ filter (λ n. not (has_rack (rack_of n))) ns)
      × Distinct (group_nodes ns nothing_grouped).rack_map
unfolding lookup
group_nodes-filter ns r = (
  devices_of-group_nodes r ns nothing_grouped,
  no_rack-group_nodes ns nothing_grouped,
  group_nodes-Distinct ns nothing_grouped tt,
)
