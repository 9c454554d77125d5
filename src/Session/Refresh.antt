-- ===== src/Session/Refresh.antt =====
-- The refresh of the access token (doRefresh and the response interceptor of
-- frontend/src/api/index.ts) over sequences of calls and answers.
use datacenter_manager.Prelude.{
  get_elem?, ℕ, zero, suc, ◌+◌, ◌≤◌, ◌≡◌, refl, ◌≢◌, String, Bool, true, false, Option, none, some,
  List, [], ◌∷◌, ◌++◌, map, if◌then◌else◌, arith, Bool-cases, inl, inr, subst,
}
use datacenter_manager.Session.{
  AuthState, Phase, in_flight, waiting, resolved, rejected, Call, Client, truthy, dispatch,
  new_call, wants_refresh, fail_call, fail_at, resumed, resume, change_at, request, response_ok,
  do_refresh, response_error, refresh_succeeded, refresh_failed, login_succeeded, logout_settled,
}

module _ {U : Type 0} where
  -- The events. An answer is to a call that is under way, and the refresh is answered while it is.
  pub data Step : Client U → Client U → Type 0 where
    calls_api : {c : Client U} (url : String) → Step c (request url c)
    answers_ok :
        {c : Client U} (i : ℕ) (call : Call)
        → get_elem? c.calls i ≡ some call
        → call.phase ≡ in_flight
        → Step c (response_ok i c)
    answers_error :
        {c : Client U} (i : ℕ) (status : Option ℕ) (call : Call)
        → get_elem? c.calls i ≡ some call
        → call.phase ≡ in_flight
        → Step c (response_error i status call c)
    refreshes :
        {c : Client U} (token : String) → c.refreshing ≡ true → Step c (refresh_succeeded token c)
    fails_to_refresh : {c : Client U} → c.refreshing ≡ true → Step c (refresh_failed c)
    logs_in : {c : Client U} (token : String) → Step c (login_succeeded token c)
    logs_out : {c : Client U} → Step c (logout_settled c)

  abbrev pub initial : AuthState U → Client U
  initial store = record {
    store = store;
    refreshing = false;
    calls = [];
    posts = 0;
    settled = 0;
    location = none;
  }

  pub data Reach (store : AuthState U) : Client U → Type 0 where
    begin : Reach store (initial store)
    next : {c d : Client U} → Reach store c → Step c d → Reach store d

-- A call that has not been retried was sent once, one that has been at most twice; it waits only for
-- a refresh that is under way, having been sent once, and only if it is no call of /auth/login or
-- /auth/refresh.
pub record CallOk (refreshing : Bool) (call : Call) : Type 0 where
  pub first_try : call.retry ≡ false → call.attempts ≡ 1
  pub second_try : call.attempts ≤ 2
  pub waits : call.phase ≡ waiting → (refreshing ≡ true) × (call.retry ≡ true) × (call.attempts ≡ 1)

abbrev pub AllOk : Bool → List Call → Type 0
AllOk refreshing [] = Unit
AllOk refreshing (c ∷ cs) = CallOk refreshing c × AllOk refreshing cs

pub record Consistent {U : Type 0} (c : Client U) : Type 0 where
  pub one_refresh : c.posts ≡ c.settled + (if c.refreshing then 1 else 0)
  pub calls_ok : AllOk c.refreshing c.calls

dispatch-CallOk :
    (b : Bool) (token : Option String) (url : String) → CallOk b (dispatch token (new_call url))
unfolding dispatch
dispatch-CallOk b token url = record {
  first_try = λ h. refl;
  second_try = omega arith;
  waits = λ h. absurd (cc);
}

AllOk-append :
    (b : Bool) (cs : List Call) (c : Call) → AllOk b cs → CallOk b c → AllOk b (cs ++ c ∷ [])
AllOk-append b [] c h k = (k, tt)
AllOk-append b (d ∷ cs) c h k = (h.0, AllOk-append b cs c h.1 k)

AllOk-map :
    (b b' : Bool) (f : Call → Call) (cs : List Call)
    → ((c : Call) → CallOk b c → CallOk b' (f c))
    → AllOk b cs
    → AllOk b' (map f cs)
AllOk-map b b' f [] k h = tt
AllOk-map b b' f (c ∷ cs) k h = (k c h.0, AllOk-map b b' f cs k h.1)

-- A refresh that begins leaves every call consistent.
CallOk-true : {b : Bool} (c : Call) → CallOk b c → CallOk true c
CallOk-true c k = record {
  first_try = k.first_try;
  second_try = k.second_try;
  waits = λ h. let (p, q, r) = k.waits h in (refl, q, r);
}

AllOk-true : (b : Bool) (cs : List Call) → AllOk b cs → AllOk true cs
AllOk-true b [] h = tt
AllOk-true b (c ∷ cs) h = (CallOk-true c h.0, AllOk-true b cs h.1)

get_elem?-AllOk :
    (b : Bool) (i : ℕ) (cs : List Call) {call : Call}
    → get_elem? cs i ≡ some call
    → AllOk b cs
    → CallOk b call
get_elem?-AllOk b i [] e h = absurd (cc)
get_elem?-AllOk b zero (c ∷ cs) e h = let same : c ≡ _ = cc e in subst (CallOk b) same h.0
get_elem?-AllOk b (suc i) (c ∷ cs) e h = get_elem?-AllOk b i cs e h.1

AllOk-change_at :
    (b : Bool) (i : ℕ) (f : Call → Call) (cs : List Call) (call : Call)
    → get_elem? cs i ≡ some call
    → CallOk b (f call)
    → AllOk b cs
    → AllOk b (change_at i f cs)
unfolding change_at
AllOk-change_at b i f [] call e k h = tt
AllOk-change_at b zero f (c ∷ cs) call e k h =
    let same : call ≡ c = cc e in (subst (λ x. CallOk b (f x)) same k, h.1)
AllOk-change_at b (suc i) f (c ∷ cs) call e k h = (h.0, AllOk-change_at b i f cs call e k h.1)

done-CallOk :
    (b : Bool) (call : Call) (p : Phase)
    → p ≢ waiting
    → CallOk b call
    → CallOk b (record call { phase = p })
done-CallOk b call p h k = record {
  first_try = k.first_try;
  second_try = k.second_try;
  waits = λ e. absurd (h e);
}

resumed-CallOk :
    (b : Bool) (token : Option String) (call : Call) (p : Phase)
    → call.phase ≡ p
    → CallOk b call
    → CallOk false (resumed token call p)
unfolding resumed dispatch
resumed-CallOk b token call waiting e k =
    let (_, retried, once) = k.waits e in
    elim (Bool-cases (truthy token)) [
      | inl fresh ↦ rw fresh (record {
        first_try = λ h. absurd (cc (h, retried));
        second_try = omega arith;
        waits = λ h. absurd (cc);
      })
      | inr stale ↦
          rw stale (record {
            first_try = k.first_try;
            second_try = k.second_try;
            waits = λ h. absurd (cc);
          })
    ]
resumed-CallOk b token call _ e k = record {
  first_try = k.first_try;
  second_try = k.second_try;
  waits = λ h. absurd (cc (h, e));
}

resume-CallOk :
    (b : Bool) (token : Option String) (call : Call)
    → CallOk b call
    → CallOk false (resume token call)
unfolding resume
resume-CallOk b token call k = resumed-CallOk b token call call.phase refl k

fail_call-CallOk :
    (status : Option ℕ) (call : Call)
    → wants_refresh status call ≡ true
    → CallOk true call
    → CallOk true (fail_call status call)
unfolding fail_call
fail_call-CallOk status call w k = rw w (record {
  first_try = λ h. absurd (cc);
  second_try = k.second_try;
  waits = λ h. (refl, refl, k.first_try (not_retried status w));
})
  where
    not_retried : (s : Option ℕ) → wants_refresh s call ≡ true → call.retry ≡ false
    not_retried none h = absurd (cc)
    not_retried (some n) h = ground arith

module _ {U : Type 0} where
  do_refresh-Consistent :
      (c : Client U)
      → c.posts ≡ c.settled + (if c.refreshing then 1 else 0)
      → AllOk true c.calls
      → Consistent (do_refresh c)
  unfolding do_refresh
  do_refresh-Consistent c one h = elim (Bool-cases c.refreshing) [
    | inl under_way ↦ rw under_way (record { one_refresh = rw under_way at one; calls_ok = h })
    | inr idle ↦
        rw idle (record { one_refresh = let o = rw idle at one in omega arith; calls_ok = h })
  ]

  response_error-Consistent :
      (i : ℕ) (status : Option ℕ) (call : Call) (c : Client U)
      → get_elem? c.calls i ≡ some call
      → Consistent c
      → Consistent (response_error i status call c)
  unfolding response_error fail_at
  response_error-Consistent i status call c e k =
      let ok = get_elem?-AllOk c.refreshing i c.calls e k.calls_ok in
      elim (Bool-cases (wants_refresh status call)) [
        | inl wants ↦ rw wants (
            do_refresh-Consistent (fail_at i status c) k.one_refresh (
              AllOk-change_at true i (fail_call status) c.calls call e
                (fail_call-CallOk status call wants (CallOk-true call ok))
                (AllOk-true c.refreshing c.calls k.calls_ok)))
        | inr gives_up ↦ rw gives_up (record {
          one_refresh = k.one_refresh;
          calls_ok =
              AllOk-change_at c.refreshing i (fail_call status) c.calls call e
                (unfold fail_call in
                  rw gives_up (done-CallOk c.refreshing call rejected (λ h. cc) ok))
                k.calls_ok;
        })
      ]

  settled_by :
      (token : Option String) (c : Client U)
      → Consistent c
      → AllOk false (map (resume token) c.calls)
  settled_by token c k =
      AllOk-map c.refreshing false (resume token) c.calls (resume-CallOk c.refreshing token)
        k.calls_ok

  pub Step-Consistent : {c d : Client U} → Step c d → Consistent c → Consistent d
  unfolding request response_ok refresh_succeeded refresh_failed login_succeeded logout_settled
  Step-Consistent (calls_api {c} url) k = record {
    one_refresh = k.one_refresh;
    calls_ok =
        AllOk-append c.refreshing c.calls _ k.calls_ok
          (dispatch-CallOk c.refreshing c.store.access_token url);
  }
  Step-Consistent (answers_ok {c} i call e p) k = record {
    one_refresh = k.one_refresh;
    calls_ok =
        AllOk-change_at c.refreshing i _ c.calls call e
          (done-CallOk c.refreshing call resolved (λ h. cc)
            (get_elem?-AllOk c.refreshing i c.calls e k.calls_ok))
          k.calls_ok;
  }
  Step-Consistent (answers_error {c} i status call e p) k =
      response_error-Consistent i status call c e k
  Step-Consistent (refreshes {c} token h) k = record {
    one_refresh = let o = rw h at k.one_refresh in omega arith;
    calls_ok = settled_by (some token) c k;
  }
  Step-Consistent (fails_to_refresh {c} h) k = record {
    one_refresh = let o = rw h at k.one_refresh in omega arith;
    calls_ok = settled_by none c k;
  }
  Step-Consistent (logs_in {c} token) k = record {
    one_refresh = k.one_refresh;
    calls_ok = k.calls_ok;
  }
  Step-Consistent (logs_out {c}) k = record { one_refresh = k.one_refresh; calls_ok = k.calls_ok }

  -- After any calls and answers, in any order: the refreshes that were sent and not answered are one
  -- while `refreshPromise` is set and none otherwise; each call that has not been retried was sent
  -- once, and none more than twice; and a call waits only while a refresh is under way, having been
  -- sent once. An answer is to a call under way, and a refresh is answered while it is under way.
  pub Reach-Consistent : {store : AuthState U} {c : Client U} → Reach store c → Consistent c
  Reach-Consistent begin = record { one_refresh = omega arith; calls_ok = tt }
  Reach-Consistent (next r s) = Step-Consistent s (Reach-Consistent r)
