-- ===== src/Api/Refresh.antt =====
-- Which queries a mutation makes the query library ask for again.
use datacenter_manager.Prelude.{
  String, Bool, true, false, Option, List, [], ◌∷◌, ◌++◌, ◌≡◌, inl, inr, ◌||◌, refl, sym, ap, ◌∙◌,
  str_eq, any, if◌then◌else◌, Bool-cases, eq_iff, eq_refl, not, ◌&&◌, subst,
}
use datacenter_manager.DeviceEditor.Body.{Body}
use datacenter_manager.Api.{Params, KeyPart, name, Request, Query, Mutation}
use datacenter_manager.Api.Hooks.{
  IsList, IsItem, IsPart, IsQuery, IsCreate, IsUpdate, IsRemove, IsMutation, list, item, part,
  creates, updates, removes,
}

-- What the code relies on of `invalidateQueries`: a key that begins with the given one matches, and a
-- key does not that has another name at some place.
pub record Matching : Type 0 where
  pub matches : List KeyPart → List KeyPart → Bool
  pub extends : (p k : List KeyPart) → matches p (p ++ k) ≡ true
  pub differs :
      (c : List KeyPart) (s t : String) (p k : List KeyPart)
      → str_eq s t ≡ false
      → matches (c ++ name s ∷ p) (c ++ name t ∷ k) ≡ false

abbrev pub refreshes : Matching → Mutation → Query → Bool
refreshes m f q = any (λ p. m.matches p q.key) f.invalidates

abbrev virtual_key : String → String
virtual_key s =
    if str_eq s "clusters"
    then "virt-clusters"
    else if str_eq s "hosts"
    then "virt-hosts"
    else if str_eq s "vms"
    then "virt-vms"
    else s

-- The name of the resource that a path begins with, which the keys of its queries are to begin with.
abbrev pub resource : List String → String
resource [] = ""
resource (s ∷ []) = if str_eq s "audit" then "audit-logs" else s
resource (s ∷ t ∷ path) = if str_eq s "virt" then virtual_key t else s

abbrev pub resource_of : Request → String
resource_of r = resource r.path

-- A key that begins with the name of the resource.
abbrev Named : Query → Type 0
Named q = (k : List KeyPart) × (q.key ≡ name (resource_of q.request) ∷ k)

list-Named : {f : Option Params → Query} → IsList f → (p : Option Params) → Named (f p)
list-Named IsList.rooms p = (_, refl)
list-Named IsList.corridors p = (_, refl)
list-Named IsList.racks p = (_, refl)
list-Named IsList.devices p = (_, refl)
list-Named IsList.interfaces p = (_, refl)
list-Named IsList.links p = (_, refl)
list-Named IsList.lag_groups p = (_, refl)
list-Named IsList.vlans p = (_, refl)
list-Named IsList.ip_networks p = (_, refl)
list-Named IsList.ip_addresses p = (_, refl)
list-Named IsList.san_fabrics p = (_, refl)
list-Named IsList.virt_clusters p = (_, refl)
list-Named IsList.virt_hosts p = (_, refl)
list-Named IsList.vms p = (_, refl)
list-Named IsList.datastores p = (_, refl)
list-Named IsList.licenses p = (_, refl)
list-Named IsList.integrations p = (_, refl)
list-Named IsList.users p = (_, refl)
list-Named IsList.alerts p = (_, refl)
list-Named IsList.audit_logs p = (_, refl)

item-Named : {f : String → Query} → IsItem f → (id : String) → Named (f id)
item-Named IsItem.data_center id = (_, refl)
item-Named IsItem.room id = (_, refl)
item-Named IsItem.corridor id = (_, refl)
item-Named IsItem.rack id = (_, refl)
item-Named IsItem.device id = (_, refl)
item-Named IsItem.interface id = (_, refl)
item-Named IsItem.vlan id = (_, refl)
item-Named IsItem.ip_network id = (_, refl)
item-Named IsItem.ip_address id = (_, refl)
item-Named IsItem.san_fabric id = (_, refl)
item-Named IsItem.virt_cluster id = (_, refl)
item-Named IsItem.virt_host id = (_, refl)
item-Named IsItem.vm id = (_, refl)
item-Named IsItem.license id = (_, refl)
item-Named IsItem.integration id = (_, refl)
item-Named IsItem.user id = (_, refl)

part-Named : {q : Query} → IsPart q → Named q
part-Named (IsPart.data_centers page size) = (_, refl)
part-Named (IsPart.room_corridors room_id) = (_, refl)
part-Named (IsPart.corridor_racks corridor_id) = (_, refl)
part-Named (IsPart.rack_devices id) = (_, refl)
part-Named (IsPart.rack_power_summary id) = (_, refl)
part-Named IsPart.device_types = (_, refl)
part-Named (IsPart.device_power_readings id) = (_, refl)
part-Named (IsPart.chassis_blades chassis_id) = (_, refl)
part-Named (IsPart.available_ips subnet_id) = (_, refl)
part-Named (IsPart.expiring_licenses days) = (_, refl)
part-Named (IsPart.integration_sync_logs id) = (_, refl)
part-Named IsPart.alert_summary = (_, refl)
part-Named IsPart.dashboard_summary = (_, refl)
part-Named IsPart.dashboard_alerts = (_, refl)
part-Named IsPart.dashboard_capacity = (_, refl)
part-Named (IsPart.search trim q) = (_, refl)
part-Named IsPart.datacenters = (_, refl)
part-Named (IsPart.blades_of_chassis chassis_id) = (_, refl)

query-Named : {q : Query} → IsQuery q → Named q
query-Named (list f p) = list-Named f p
query-Named (item f id) = item-Named f id
query-Named (part h) = part-Named h

-- The names that the keys of the topology and of the tree view begin with.
abbrev pub view_names : List String
view_names =
    "topology" ∷ "tree-rooms" ∷ "tree-racks" ∷ "tree-devices-rack" ∷ "tree-ifaces" ∷ "tree-vhost"
    ∷ "tree-vms" ∷ "tree-blades" ∷ []

abbrev pub begins_otherwise : String → List KeyPart → Bool
begins_otherwise x (name s ∷ p) = not (str_eq s x)
begins_otherwise x p = false

abbrev pub all : {A : Type 0} → (A → Bool) → List A → Bool
all p [] = true
all p (x ∷ xs) = p x && all p xs

abbrev pub is_apart : List (List KeyPart) → Bool
is_apart ks = all (λ x. all (begins_otherwise x) ks) view_names

abbrev pub Whole : Mutation → Type 0
Whole m =
    (m.invalidates ≡ (name (resource_of m.request) ∷ []) ∷ []) × (is_apart m.invalidates ≡ true)

create-Whole : {f : Body → Mutation} → IsCreate f → (body : Body) → Whole (f body)
create-Whole IsCreate.create_data_center body = (refl, refl)
create-Whole IsCreate.create_room body = (refl, refl)
create-Whole IsCreate.create_corridor body = (refl, refl)
create-Whole IsCreate.create_rack body = (refl, refl)
create-Whole IsCreate.create_device_type body = (refl, refl)
create-Whole IsCreate.create_device body = (refl, refl)
create-Whole IsCreate.create_interface body = (refl, refl)
create-Whole IsCreate.create_link body = (refl, refl)
create-Whole IsCreate.create_lag_group body = (refl, refl)
create-Whole IsCreate.create_vlan body = (refl, refl)
create-Whole IsCreate.create_ip_network body = (refl, refl)
create-Whole IsCreate.create_ip_address body = (refl, refl)
create-Whole IsCreate.create_san_fabric body = (refl, refl)
create-Whole IsCreate.create_virt_cluster body = (refl, refl)
create-Whole IsCreate.create_virt_host body = (refl, refl)
create-Whole IsCreate.create_vm body = (refl, refl)
create-Whole IsCreate.create_datastore body = (refl, refl)
create-Whole IsCreate.create_license body = (refl, refl)
create-Whole IsCreate.create_integration body = (refl, refl)
create-Whole IsCreate.create_user body = (refl, refl)

update-Whole :
    {f : String → Body → Mutation} → IsUpdate f → (id : String) (body : Body) → Whole (f id body)
update-Whole IsUpdate.update_data_center id body = (refl, refl)
update-Whole IsUpdate.update_room id body = (refl, refl)
update-Whole IsUpdate.update_corridor id body = (refl, refl)
update-Whole IsUpdate.update_rack id body = (refl, refl)
update-Whole IsUpdate.update_device_type id body = (refl, refl)
update-Whole IsUpdate.update_device id body = (refl, refl)
update-Whole IsUpdate.update_interface id body = (refl, refl)
update-Whole IsUpdate.update_link id body = (refl, refl)
update-Whole IsUpdate.update_vlan id body = (refl, refl)
update-Whole IsUpdate.update_ip_network id body = (refl, refl)
update-Whole IsUpdate.update_ip_address id body = (refl, refl)
update-Whole IsUpdate.update_san_fabric id body = (refl, refl)
update-Whole IsUpdate.update_virt_cluster id body = (refl, refl)
update-Whole IsUpdate.update_virt_host id body = (refl, refl)
update-Whole IsUpdate.update_vm id body = (refl, refl)
update-Whole IsUpdate.update_license id body = (refl, refl)
update-Whole IsUpdate.update_integration id body = (refl, refl)
update-Whole IsUpdate.update_user id body = (refl, refl)

remove-Whole : {f : String → Mutation} → IsRemove f → (id : String) → Whole (f id)
remove-Whole IsRemove.delete_data_center id = (refl, refl)
remove-Whole IsRemove.delete_room id = (refl, refl)
remove-Whole IsRemove.delete_corridor id = (refl, refl)
remove-Whole IsRemove.delete_rack id = (refl, refl)
remove-Whole IsRemove.delete_device_type id = (refl, refl)
remove-Whole IsRemove.delete_device id = (refl, refl)
remove-Whole IsRemove.delete_interface id = (refl, refl)
remove-Whole IsRemove.delete_link id = (refl, refl)
remove-Whole IsRemove.delete_lag_group id = (refl, refl)
remove-Whole IsRemove.delete_vlan id = (refl, refl)
remove-Whole IsRemove.delete_ip_network id = (refl, refl)
remove-Whole IsRemove.delete_ip_address id = (refl, refl)
remove-Whole IsRemove.delete_san_fabric id = (refl, refl)
remove-Whole IsRemove.delete_virt_cluster id = (refl, refl)
remove-Whole IsRemove.delete_virt_host id = (refl, refl)
remove-Whole IsRemove.delete_vm id = (refl, refl)
remove-Whole IsRemove.delete_datastore id = (refl, refl)
remove-Whole IsRemove.delete_license id = (refl, refl)
remove-Whole IsRemove.delete_integration id = (refl, refl)
remove-Whole IsRemove.acknowledge_alert id = (refl, refl)

pub mutation-Whole : {m : Mutation} → IsMutation m → Whole m
mutation-Whole (creates f body) = create-Whole f body
mutation-Whole (updates f id body) = update-Whole f id body
mutation-Whole (removes f id) = remove-Whole f id

or_false : (b : Bool) → (b || false) ≡ b
or_false true = refl
or_false false = refl

module _ (library : Matching) where
  matches_name :
      (s t : String) (k : List KeyPart) → library.matches (name s ∷ []) (name t ∷ k) ≡ str_eq s t
  matches_name s t k = elim (Bool-cases (str_eq s t)) [
    | inl same ↦
        subst (λ (x : String). library.matches (name s ∷ []) (name x ∷ k) ≡ str_eq s x)
          ((eq_iff s t).0 same) (library.extends (name s ∷ []) k ∙ sym (eq_refl s))
    | inr other ↦ library.differs [] s t [] k other ∙ sym other
  ]

  -- A hook that creates, updates or deletes a whole item, or acknowledges an alert, has a list, an item
  -- or another query under the key of a resource asked for again exactly if both are about the same
  -- resource. Not among these are the queries under keys of the topology's or the tree view's own, and
  -- the hooks that save an extension table, trigger a sync or reset a password.
  pub refreshes-resource :
      (m : Mutation) (q : Query)
      → IsMutation m
      → IsQuery q
      → refreshes library m q ≡ str_eq (resource_of m.request) (resource_of q.request)
  refreshes-resource m q h g =
      let (k, e) = query-Named g in
      let r = resource_of m.request in
      ap (any (λ p. library.matches p q.key)) (mutation-Whole h).0
      ∙ or_false (library.matches (name r ∷ []) q.key)
      ∙ ap (library.matches (name r ∷ [])) e
      ∙ matches_name r (resource_of q.request) k
