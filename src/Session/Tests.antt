-- ===== src/Session/Tests.antt =====
-- Runs of the API client, with user profiles that are natural numbers.
use datacenter_manager.Prelude.{ℕ, String, ◌≡◌, ◌≢◌, refl, true, false, some, get_elem?, eq_iff}
use datacenter_manager.Session.{
  AuthState, Persisted, Client, Call, in_flight, request, response_error, dispatch, new_call,
}
use datacenter_manager.Session.Refresh.{
  Reach, begin, next, calls_api, answers_error, Consistent, initial, Reach-Consistent,
}
use datacenter_manager.Session.Routes.{login, Settles, render-Settles}

abbrev signed_in : AuthState ℕ
signed_in = record { access_token = some "old"; user = some 7 }

-- One call, that is answered with 401.
abbrev called : Client ℕ
called = request "/devices" (initial signed_in)

abbrev first_call : Call
first_call = dispatch (some "old") (new_call "/devices")

called_first : get_elem? called.calls 0 ≡ some first_call
unfolding request
called_first = refl

first_in_flight : first_call.phase ≡ in_flight
unfolding dispatch
first_in_flight = refl

abbrev refused : Client ℕ
refused = response_error 0 (some 401) first_call called

refused-Reach : Reach signed_in refused
refused-Reach =
    next (next begin (calls_api "/devices"))
      (answers_error 0 (some 401) first_call called_first first_in_flight)

Reach-Consistent_example : Consistent refused
Reach-Consistent_example = Reach-Consistent refused-Reach

new_token : ◌≢◌ {A = String} "new" ""
new_token e = let b : false ≡ true = (eq_iff "new" "").1 e in absurd (cc)

render-Settles_example : Settles signed_in login
render-Settles_example = render-Settles signed_in login

-- `merge` as zustand's `persist` does it: `{ ...current, ...persisted }`.
abbrev merge : Persisted ℕ → AuthState ℕ → AuthState ℕ
merge p s = record s { user = p.user }
