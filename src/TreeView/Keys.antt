-- ===== src/TreeView/Keys.antt =====
-- The keys of the nodes: each starts with two letters that no other kind's has.
use Prim.Native.String.{String, ◌++◌, slice, len}
use datacenter_manager.Prelude.{◌≡◌, refl, sym, ap, ◌∙◌, Option, none, some, if◌then◌else◌, str_eq}
use text.Mathlib.TextLemmas.{append_assoc, append_cancel_left}
use text.Mathlib.TextPositions.{slice-append_left}
use datacenter_manager.TreeView.{
  NodeKind, datacenter_kind, room_kind, rack_kind, device_kind, interface_kind, vm_kind, prefix_of,
  NodeData, kind, id_of, node_key,
}

abbrev start_of : NodeKind → String
start_of datacenter_kind = "da"
start_of room_kind = "ro"
start_of rack_kind = "ra"
start_of device_kind = "de"
start_of interface_kind = "in"
start_of vm_kind = "vm"

kind_of_start : String → Option NodeKind
kind_of_start s =
    if str_eq s "da"
    then some datacenter_kind
    else (if str_eq s "ro"
        then some room_kind
        else (if str_eq s "ra"
            then some rack_kind
            else (if str_eq s "de"
                then some device_kind
                else (if str_eq s "in"
                    then some interface_kind
                    else (if str_eq s "vm" then some vm_kind else none)))))

kind_of-start : (k : NodeKind) → kind_of_start (start_of k) ≡ some k
unfolding kind_of_start
kind_of-start datacenter_kind = refl
kind_of-start room_kind = refl
kind_of-start rack_kind = refl
kind_of-start device_kind = refl
kind_of-start interface_kind = refl
kind_of-start vm_kind = refl

start : (a b id : String) → slice ((a ++ b) ++ id) 0 (len a) ≡ a
start a b id = ap (λ s. slice s 0 (len a)) (append_assoc a b id) ∙ slice-append_left a (b ++ id)

slice-prefix_of : (k : NodeKind) (id : String) → slice (prefix_of k ++ id) 0 2 ≡ start_of k
slice-prefix_of datacenter_kind id = start "da" "tacenter-" id
slice-prefix_of room_kind id = start "ro" "om-" id
slice-prefix_of rack_kind id = start "ra" "ck-" id
slice-prefix_of device_kind id = start "de" "vice-" id
slice-prefix_of interface_kind id = start "in" "terface-" id
slice-prefix_of vm_kind id = start "vm" "-" id

-- Nodes with the same key are of the same kind and have the same id.
pub node_key-inj :
    (n m : NodeData) → node_key n ≡ node_key m → (kind n ≡ kind m) × (id_of n ≡ id_of m)
unfolding node_key
node_key-inj n m e =
    let s : start_of (kind n) ≡ start_of (kind m) =
      sym (slice-prefix_of (kind n) (id_of n))
      ∙ ap (λ t. slice t 0 2) e
      ∙ slice-prefix_of (kind m) (id_of m) in
    let k : some (kind n) ≡ some (kind m) =
      sym (kind_of-start (kind n)) ∙ ap kind_of_start s ∙ kind_of-start (kind m) in
    let same : kind n ≡ kind m = cc k in
    let e' : prefix_of (kind m) ++ id_of n ≡ prefix_of (kind m) ++ id_of m =
      ap (λ c. prefix_of c ++ id_of n) (sym same) ∙ e in
    (same, append_cancel_left (prefix_of (kind m)) (id_of n) (id_of m) e')
