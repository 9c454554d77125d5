-- ===== src/Pages/Refused.antt =====
-- Edits that the server has no route for.
use datacenter_manager.Prelude.{String, true, some, ◌≡◌, ◌≢◌, inl, inr, refl, Bool-cases}
use datacenter_manager.Api.{Request}
use datacenter_manager.Api.Hooks.{IsUpdate, updates}
use datacenter_manager.Api.Server.{Server, method_not_allowed}
use datacenter_manager.Api.Methods.{answer-mutation}
use datacenter_manager.Pages.{Page, State, Reply, ok, handle_save, mutation_of}
use datacenter_manager.Pages.Vlans.{VlanRead, VlanForm, vlans}
use datacenter_manager.Pages.SanFabrics.{SanFabricRead, SanFabricForm, san_fabrics}
use datacenter_manager.Pages.Licenses.{LicenseRead, LicenseForm, licenses}
use datacenter_manager.Pages.Subnets.{IpNetworkRead, SubnetForm, subnets}
use datacenter_manager.Pages.Dialog.{handle_save-modal_open_iff}

-- The API, as the pages see it: a request that the server answers with 405 is not accepted.
abbrev pub Rejects : Server → (Request → Reply) → Type 0
Rejects server send = (r : Request) → server.answer r ≡ method_not_allowed → send r ≢ ok

-- The pages whose update is a PATCH of something other than a user.
pub data IsPatched : (Row Form : Type 0) → Page Row Form → Type 1 where
  of_vlans : IsPatched VlanRead VlanForm vlans
  of_san_fabrics : IsPatched SanFabricRead SanFabricForm san_fabrics
  of_licenses : IsPatched LicenseRead LicenseForm licenses
  of_subnets : IsPatched IpNetworkRead SubnetForm subnets

refused :
    {Row Form : Type 0} {p : Page Row Form} (server : Server)
    → IsPatched Row Form p
    → (id : String) (f : Form) → server.answer (p.update_with id f).request ≡ method_not_allowed
refused server of_vlans id f =
    (answer-mutation server (vlans.update_with id f) (inl (updates IsUpdate.update_vlan id _))).0
      refl
refused server of_san_fabrics id f =
    (answer-mutation server (san_fabrics.update_with id f)
        (inl (updates IsUpdate.update_san_fabric id _))).0
      refl
refused server of_licenses id f =
    (answer-mutation server (licenses.update_with id f)
        (inl (updates IsUpdate.update_license id _))).0
      refl
refused server of_subnets id f =
    (answer-mutation server (subnets.update_with id f)
        (inl (updates IsUpdate.update_ip_network id _))).0
      refl

-- No edit of a VLAN, a SAN fabric, a license or a subnet is ever saved: whatever is in the form of an open dialog
-- that edits a row, it stays open.
pub handle_save-patched :
    (server : Server) (send : Request → Reply)
    → Rejects server send
    → {Row Form : Type 0} (p : Page Row Form) → IsPatched Row Form p
    → (s : State Row Form) (r : Row) → s.modal_open ≡ true
    → s.editing ≡ some r
    → (handle_save p send s).modal_open ≡ true
unfolding mutation_of
handle_save-patched server send rejects p h s r was_open e =
    elim (Bool-cases (handle_save p send s).modal_open) [
      | inl still ↦ still
      | inr closed ↦
          let accepted = ((handle_save-modal_open_iff p send s was_open).0 closed).1 in
          let q = refused server h (p.row_id r) s.form in
          absurd (rejects (p.update_with (p.row_id r) s.form).request q (rw e at accepted))
    ]
