-- ===== src/Session/Routes.antt =====
-- The guards of frontend/src/App.tsx, and what of the session survives a reload of the page. The
-- router's matching of a path to one of the routes is the library's, and so is the merging of what
-- was persisted into the initial state: `merge` is a parameter.
use datacenter_manager.Prelude.{
  String, ◌≡◌, refl, Bool, true, false, not, Option, none, if◌then◌else◌,
}
use datacenter_manager.Session.{AuthState, Persisted, truthy, partialize, signed_out}

-- The routes: /login, /change-password, the index, a page of the application shell, and `*`.
pub data Route : Type 0 where
  login change_password index : Route
  shell : String → Route
  catch_all : Route

-- What is rendered at a route: a redirect, or a page.
pub data Rendered : Type 0 where
  navigate : Route → Rendered
  page : Rendered

pub protected_route : Option String → Rendered → Rendered
protected_route token outlet = if not (truthy token) then navigate login else outlet

pub guest_route : Option String → Rendered → Rendered
guest_route token outlet = if truthy token then navigate (shell "/dashboard") else outlet

module _ {U : Type 0} where
  pub render : AuthState U → Route → Rendered
  unfolding protected_route guest_route
  render s login = guest_route s.access_token page
  render s change_password = page
  render s index = protected_route s.access_token (navigate (shell "/dashboard"))
  render s (shell path) = protected_route s.access_token page
  render s catch_all = navigate (shell "/dashboard")

  -- A page is reached from a route by at most `n` redirects.
  pub data Settles (s : AuthState U) : Route → Type 0 where
    shows : {r : Route} → render s r ≡ page → Settles s r
    leads : {r q : Route} → render s r ≡ navigate q → render s q ≡ page → Settles s r
    leads_twice :
        {r q p : Route}
        → r ≡ catch_all
        → render s r ≡ navigate q
        → render s q ≡ navigate p
        → render s p ≡ page
        → Settles s r

  -- Whatever the session, every route shows a page, or redirects to one that does, or, for unknown
  -- paths only, redirects to one that does: the guards of the login page and of the shell never send
  -- to one another in a circle.
  pub render-Settles : (s : AuthState U) (r : Route) → Settles s r
  unfolding render
  render-Settles s r = go r (truthy s.access_token) refl
    where
      go : (r : Route) (t : Bool) → truthy s.access_token ≡ t → Settles s r
      go login true e = leads {q = shell "/dashboard"} (rw (e, render)) (rw (e, render))
      go login false e = shows (rw (e, render))
      go change_password _ e = shows refl
      go index true e = leads {q = shell "/dashboard"} (rw (e, render)) (rw (e, render))
      go index false e = leads {q = login} (rw (e, render)) (rw (e, render))
      go (shell path) true e = shows (rw (e, render))
      go (shell path) false e = leads {q = login} (rw (e, render)) (rw (e, render))
      go catch_all true e = leads {q = shell "/dashboard"} refl (rw (e, render))
      go catch_all false e =
          leads_twice {q = shell "/dashboard"} {p = login} refl refl (rw (e, render))
            (rw (e, render))

module _ {U : Type 0} (merge : Persisted U → AuthState U → AuthState U)
    (merge-access_token : (p : Persisted U) (s : AuthState U)
      → (merge p s).access_token ≡ s.access_token)
    (merge-user : (p : Persisted U) (s : AuthState U) → (merge p s).user ≡ p.user) where
  -- The state after a reload of the page.
  pub reloaded : AuthState U → AuthState U
  unfolding partialize
  reloaded s = merge (partialize s) signed_out

  -- After a reload every page of the shell redirects to the login page, which is shown, whatever the
  -- session was before, and the user profile is kept. `merge` takes the token of the initial state
  -- and the profile that was persisted.
  pub render-reloaded :
      (s : AuthState U) (path : String)
      → (render (reloaded s) (shell path) ≡ navigate login)
        × (render (reloaded s) login ≡ page)
        × ((reloaded s).user ≡ s.user)
  unfolding render reloaded signed_out
  render-reloaded s path =
      let lost : (reloaded s).access_token ≡ none = merge-access_token (partialize s) signed_out in
      (rw (lost, protected_route), rw (lost, guest_route), merge-user (partialize s) signed_out)
