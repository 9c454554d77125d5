-- ===== src/Api/Methods.antt =====
-- Which mutations the server has a route for.
use datacenter_manager.Prelude.{
  String, Bool, true, false, not, Option, none, some, [], ◌∷◌, arith, ◌≡◌, ◌⊎◌, inl, inr, ◌&&◌,
  refl, ◌∙◌, ap,
}
use datacenter_manager.DeviceEditor.Body.{Body}
use datacenter_manager.Api.{Request, Mutation, patch}
use datacenter_manager.Api.Routes.Pattern.{lit, var, Route}
use datacenter_manager.Api.Hooks.{
  IsCreate, IsUpdate, IsRemove, IsDetail, IsMutation, creates, updates, removes,
}
use datacenter_manager.Api.Server.{
  Server, fits, same_method, path_known, route_of, method_not_allowed,
}

-- PATCH, of anything but a user
abbrev pub is_refused : Request → Bool
is_refused r = same_method r.method patch && not (fits (lit "users" ∷ var ∷ []) r.path)

abbrev is_some : Option Route → Bool
is_some none = false
is_some (some t) = true

abbrev pub has_route : Request → Bool
has_route r = is_some (route_of r)

-- The path has a route, and the method too, exactly if it is not refused.
abbrev Routed : Request → Type 0
Routed r = (path_known r ≡ true) × (has_route r ≡ not (is_refused r))

create-Routed : {f : Body → Mutation} → IsCreate f → (body : Body) → Routed (f body).request
create-Routed IsCreate.create_data_center body = (refl, refl)
create-Routed IsCreate.create_room body = (refl, refl)
create-Routed IsCreate.create_corridor body = (refl, refl)
create-Routed IsCreate.create_rack body = (refl, refl)
create-Routed IsCreate.create_device_type body = (refl, refl)
create-Routed IsCreate.create_device body = (refl, refl)
create-Routed IsCreate.create_interface body = (refl, refl)
create-Routed IsCreate.create_link body = (refl, refl)
create-Routed IsCreate.create_lag_group body = (refl, refl)
create-Routed IsCreate.create_vlan body = (refl, refl)
create-Routed IsCreate.create_ip_network body = (refl, refl)
create-Routed IsCreate.create_ip_address body = (refl, refl)
create-Routed IsCreate.create_san_fabric body = (refl, refl)
create-Routed IsCreate.create_virt_cluster body = (refl, refl)
create-Routed IsCreate.create_virt_host body = (refl, refl)
create-Routed IsCreate.create_vm body = (refl, refl)
create-Routed IsCreate.create_datastore body = (refl, refl)
create-Routed IsCreate.create_license body = (refl, refl)
create-Routed IsCreate.create_integration body = (refl, refl)
create-Routed IsCreate.create_user body = (refl, refl)

update-Routed :
    {f : String → Body → Mutation}
    → IsUpdate f
    → (id : String) (body : Body) → Routed (f id body).request
update-Routed IsUpdate.update_data_center id body = (refl, refl)
update-Routed IsUpdate.update_room id body = (refl, refl)
update-Routed IsUpdate.update_corridor id body = (refl, refl)
update-Routed IsUpdate.update_rack id body = (refl, refl)
update-Routed IsUpdate.update_device_type id body = (refl, refl)
update-Routed IsUpdate.update_device id body = (refl, refl)
update-Routed IsUpdate.update_interface id body = (refl, refl)
update-Routed IsUpdate.update_link id body = (refl, refl)
update-Routed IsUpdate.update_vlan id body = (refl, refl)
update-Routed IsUpdate.update_ip_network id body = (refl, refl)
update-Routed IsUpdate.update_ip_address id body = (ground arith, ground arith)
update-Routed IsUpdate.update_san_fabric id body = (refl, refl)
update-Routed IsUpdate.update_virt_cluster id body = (refl, refl)
update-Routed IsUpdate.update_virt_host id body = (refl, refl)
update-Routed IsUpdate.update_vm id body = (refl, refl)
update-Routed IsUpdate.update_license id body = (ground arith, ground arith)
update-Routed IsUpdate.update_integration id body = (refl, refl)
update-Routed IsUpdate.update_user id body = (refl, refl)

remove-Routed : {f : String → Mutation} → IsRemove f → (id : String) → Routed (f id).request
remove-Routed IsRemove.delete_data_center id = (refl, refl)
remove-Routed IsRemove.delete_room id = (refl, refl)
remove-Routed IsRemove.delete_corridor id = (refl, refl)
remove-Routed IsRemove.delete_rack id = (refl, refl)
remove-Routed IsRemove.delete_device_type id = (refl, refl)
remove-Routed IsRemove.delete_device id = (refl, refl)
remove-Routed IsRemove.delete_interface id = (refl, refl)
remove-Routed IsRemove.delete_link id = (refl, refl)
remove-Routed IsRemove.delete_lag_group id = (refl, refl)
remove-Routed IsRemove.delete_vlan id = (refl, refl)
remove-Routed IsRemove.delete_ip_network id = (refl, refl)
remove-Routed IsRemove.delete_ip_address id = (ground arith, ground arith)
remove-Routed IsRemove.delete_san_fabric id = (refl, refl)
remove-Routed IsRemove.delete_virt_cluster id = (refl, refl)
remove-Routed IsRemove.delete_virt_host id = (refl, refl)
remove-Routed IsRemove.delete_vm id = (refl, refl)
remove-Routed IsRemove.delete_datastore id = (refl, refl)
remove-Routed IsRemove.delete_license id = (ground arith, ground arith)
remove-Routed IsRemove.delete_integration id = (refl, refl)
remove-Routed IsRemove.acknowledge_alert id = (ground arith, ground arith)

detail-Routed : {m : Mutation} → IsDetail m → Routed m.request
detail-Routed (IsDetail.upsert_server_detail device_id body) = (refl, refl)
detail-Routed (IsDetail.upsert_network_detail device_id body) = (refl, refl)
detail-Routed (IsDetail.upsert_pdu_detail device_id body) = (refl, refl)
detail-Routed (IsDetail.trigger_sync id) = (refl, refl)
detail-Routed (IsDetail.reset_user_password id new_password) = (refl, refl)

mutation-Routed : {m : Mutation} → IsMutation m ⊎ IsDetail m → Routed m.request
mutation-Routed (inl (creates f body)) = create-Routed f body
mutation-Routed (inl (updates f id body)) = update-Routed f id body
mutation-Routed (inl (removes f id)) = remove-Routed f id
mutation-Routed (inr d) = detail-Routed d

no_route : (o : Option Route) → is_some o ≡ false → o ≡ none
no_route none h = refl
no_route (some t) h = cc

-- Every PATCH of a hook is answered with 405, except for that of a user, and every other mutation has a
-- route.
pub answer-mutation :
    (s : Server) (m : Mutation)
    → IsMutation m ⊎ IsDetail m
    → (is_refused m.request ≡ true → s.answer m.request ≡ method_not_allowed)
      × (is_refused m.request ≡ false → has_route m.request ≡ true)
answer-mutation s m h =
    let r = mutation-Routed h in
    (
      λ p. s.other_method m.request r.0 (no_route (route_of m.request) (r.1 ∙ ap not p)),
      λ p. r.1 ∙ ap not p,
    )
