-- ===== src/Pages/Dialog.antt =====
-- When the dialog of a page closes, and what it shows otherwise.
use datacenter_manager.Prelude.{true, false, none, ◌≡◌, ◌≢◌, ◌↔◌, ◌⊎◌, inl, inr, refl, Option-cases}
use datacenter_manager.Api.{Request}
use datacenter_manager.Pages.{
  Page, State, Reply, ok, failed, Detail, error_of, nothing, handle_save, mutation_of,
}

Reply-cases : (r : Reply) → (r ≡ ok) ⊎ ((d : Detail) × (r ≡ failed d))
Reply-cases ok = inl refl
Reply-cases (failed d) = inr (d, refl)

error_shown : (d : Detail) → error_of d ≢ nothing
error_shown Detail.missing q = cc
error_shown (Detail.text s) q = cc
error_shown (Detail.list es) q = cc

module _ {Row Form : Type 0} (p : Page Row Form) (send : Request → Reply) (s : State Row Form) where
  -- A save closes an open dialog exactly if the checks have no message and the API accepts the request.
  pub handle_save-modal_open_iff :
      s.modal_open ≡ true
      → ((handle_save p send s).modal_open ≡ false)
        ↔ ((p.check s.form ≡ none) × (send (mutation_of p s).request ≡ ok))
  unfolding handle_save
  handle_save-modal_open_iff was_open = elim (Option-cases (p.check s.form)) [
    | inl e ↦ elim (Reply-cases (send (mutation_of p s).request)) [
      | inl f ↦ rw (e, f) (λ _. (refl, refl), λ _. refl)
      | inr (d, f) ↦ rw (e, f) (λ q. absurd (cc), λ q. absurd (cc))
    ]
    | inr (m, e) ↦ rw e (λ q. absurd (cc), λ q. absurd (cc))
  ]

  -- If it does not close, the form, the row and the target of a deletion stay, and an error is shown.
  pub handle_save-keeps :
      s.modal_open ≡ true
      → (handle_save p send s).modal_open ≡ true
      → ((handle_save p send s).form ≡ s.form)
        × ((handle_save p send s).editing ≡ s.editing)
        × ((handle_save p send s).delete_target ≡ s.delete_target)
        × ((handle_save p send s).error ≢ nothing)
  unfolding handle_save
  handle_save-keeps was_open is_open = elim (Option-cases (p.check s.form)) [
    | inl e ↦ elim (Reply-cases (send (mutation_of p s).request)) [
      | inl f ↦ let closed = (handle_save-modal_open_iff was_open).1 (e, f) in absurd (cc)
      | inr (d, f) ↦ rw (e, f) (refl, refl, refl, error_shown d)
    ]
    | inr (m, e) ↦ rw e (refl, refl, refl, λ q. cc)
  ]
