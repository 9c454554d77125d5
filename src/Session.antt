-- ===== src/Session.antt =====
-- The session of the browser: frontend/src/store/authStore.ts, and the client of the API with its
-- two interceptors, frontend/src/api/index.ts, with the hooks of api/auth.ts that change the store.
-- The browser's answers are events; a call of the API is an entry of a list, with the number of
-- times that it was sent. The type of user profiles is a parameter.
pub mod Refresh
pub mod Outcome
pub mod Routes
mod Tests
use datacenter_manager.Prelude.{
  ℕ, zero, suc, ◌+◌, String, Bool, true, false, not, ◌&&◌, Option, none, some, List, [], ◌∷◌, ◌++◌,
  map, if◌then◌else◌, str_eq, ◌==◌,
}

pub record AuthState (U : Type 0) : Type 0 where
  pub access_token : Option String
  pub user : Option U

-- What is written to local storage.
pub record Persisted (U : Type 0) : Type 0 where
  pub user : Option U

module _ {U : Type 0} where
  pub signed_out : AuthState U
  signed_out = record { access_token = none; user = none }

  pub set_access_token : String → AuthState U → AuthState U
  set_access_token access s = record s { access_token = some access }

  pub set_user : U → AuthState U → AuthState U
  set_user u s = record s { user = some u }

  pub clear_auth : AuthState U → AuthState U
  clear_auth s = record s { access_token = none; user = none }

  pub partialize : AuthState U → Persisted U
  partialize s = record { user = s.user }

-- Where a call stands: under way, waiting for the refresh, or done.
pub data Phase : Type 0 where
  in_flight waiting resolved rejected : Phase

-- `config` of a call: `retry` is `_retry`, `authorization` the token behind `Bearer`. `attempts`
-- counts how often it was sent.
pub record Call : Type 0 where
  pub url : String
  pub retry : Bool
  pub authorization : Option String
  pub phase : Phase
  pub attempts : ℕ

-- `refreshing` says that `refreshPromise` is set; `posts` counts the calls of /auth/refresh that were
-- sent, `settled` those that were answered; `location` is the last value put in
-- `window.location.href`.
pub record Client (U : Type 0) : Type 0 where
  pub store : AuthState U
  pub refreshing : Bool
  pub calls : List Call
  pub posts : ℕ
  pub settled : ℕ
  pub location : Option String

-- JavaScript's truth of a string that may be `null`.
abbrev pub truthy : Option String → Bool
truthy none = false
truthy (some s) = not (str_eq s "")

-- The request interceptor, and the sending.
pub dispatch : Option String → Call → Call
dispatch token call = record call {
  authorization = if truthy token then token else call.authorization;
  phase = in_flight;
  attempts = call.attempts + 1;
}

abbrev new_call : String → Call
new_call url = record {
  url = url;
  retry = false;
  authorization = none;
  phase = resolved;
  attempts = 0;
}

-- The condition of the response interceptor.
pub wants_refresh : Option ℕ → Call → Bool
wants_refresh none call = false
wants_refresh (some status) call =
    status == 401
    && not call.retry
    && not (str_eq call.url "/auth/refresh")
    && not (str_eq call.url "/auth/login")

-- What an error makes of the call: it waits for the refresh, or is rejected.
pub fail_call : Option ℕ → Call → Call
unfolding wants_refresh
fail_call status call =
    if wants_refresh status call
    then record call { retry = true; phase = waiting }
    else record call { phase = rejected }

resumed : Option String → Call → Phase → Call
resumed token call waiting =
    if truthy token
    then dispatch token (record call { authorization = token })
    else record call { phase = rejected }
resumed token call _ = call

-- What a call does when the promise yields a token, or `null`: only one that waits for it does
-- anything.
pub resume : Option String → Call → Call
unfolding dispatch resumed
resume token call = resumed token call call.phase

-- Changes the call at a place of the list.
pub change_at : ℕ → (Call → Call) → List Call → List Call
change_at i f [] = []
change_at zero f (c ∷ cs) = f c ∷ cs
change_at (suc i) f (c ∷ cs) = c ∷ change_at i f cs

module _ {U : Type 0} where
  pub request : String → Client U → Client U
  unfolding dispatch
  request url c = record c { calls = c.calls ++ dispatch c.store.access_token (new_call url) ∷ [] }

  pub response_ok : ℕ → Client U → Client U
  unfolding change_at
  response_ok i c = record c {
    calls = change_at i (λ call. record call { phase = resolved }) c.calls;
  }

  -- `doRefresh` up to its first wait.
  pub do_refresh : Client U → Client U
  do_refresh c = if c.refreshing then c else record c { refreshing = true; posts = c.posts + 1 }

  fail_at : ℕ → Option ℕ → Client U → Client U
  fail_at i status c = record c { calls = change_at i (fail_call status) c.calls }

  -- The error handler, for the call that stands at place `i`.
  pub response_error : ℕ → Option ℕ → Call → Client U → Client U
  unfolding wants_refresh fail_call do_refresh change_at fail_at
  response_error i status call c =
      if wants_refresh status call then do_refresh (fail_at i status c) else fail_at i status c

  -- The answer to /auth/refresh, and what every call that waits for it does then.
  pub refresh_succeeded : String → Client U → Client U
  unfolding set_access_token resume
  refresh_succeeded token c = record c {
    store = set_access_token token c.store;
    refreshing = false;
    settled = c.settled + 1;
    calls = map (resume (some token)) c.calls;
  }

  pub refresh_failed : Client U → Client U
  unfolding clear_auth resume
  refresh_failed c = record c {
    store = clear_auth c.store;
    refreshing = false;
    settled = c.settled + 1;
    calls = map (resume none) c.calls;
    location = some "/login";
  }

  -- `useLogin`'s `onSuccess` and `useLogout`'s `onSettled`
  pub login_succeeded : String → Client U → Client U
  unfolding set_access_token
  login_succeeded token c = record c { store = set_access_token token c.store }

  pub logout_settled : Client U → Client U
  unfolding clear_auth
  logout_settled c = record c { store = clear_auth c.store; location = some "/login" }
