-- ===== src/Session/Outcome.antt =====
-- What the two answers to a call, and the two answers to the refresh, make of a call.
use datacenter_manager.Prelude.{
  get_elem?, get_elem?-map, ℕ, zero, suc, ◌+◌, ◌≡◌, refl, ◌≢◌, ◌↔◌, String, true, false, Option,
  none, some, List, [], ◌∷◌, if◌then◌else◌, arith, eq_iff, Bool-cases, inl, inr, ap, ◌∙◌,
}
use datacenter_manager.Session.{
  Phase, in_flight, waiting, rejected, Call, Client, wants_refresh, fail_call, fail_at, resumed,
  resume, change_at, do_refresh, response_error, refresh_succeeded, refresh_failed,
}

-- An error that a new access token may cure: 401, at a call that was not retried and that is no call
-- of the two routes by which tokens are got.
pub record IsExpired (status : Option ℕ) (call : Call) : Type 0 where
  pub unauthorized : status ≡ some 401
  pub fresh : call.retry ≡ false
  pub not_refresh : call.url ≢ "/auth/refresh"
  pub not_login : call.url ≢ "/auth/login"

pub wants_refresh_iff :
    (status : Option ℕ) (call : Call) → (wants_refresh status call ≡ true) ↔ IsExpired status call
unfolding wants_refresh
wants_refresh_iff none call = (λ h. absurd (cc), λ e. absurd (cc e.unauthorized))
wants_refresh_iff (some n) call = (
  λ h. record {
    unauthorized = ground arith;
    fresh = ground arith;
    not_refresh = λ e. ground (arith, (eq_iff call.url "/auth/refresh").1 e);
    not_login = λ e. ground (arith, (eq_iff call.url "/auth/login").1 e);
  },
  λ e.
      let p = e.unauthorized in
      let q = e.fresh in
      ground (
        arith,
        eq_iff call.url "/auth/refresh",
        eq_iff call.url "/auth/login",
        e.not_refresh,
        e.not_login,
      ),
)

get_elem?-change_at :
    (i : ℕ) (f : Call → Call) (cs : List Call) {call : Call}
    → get_elem? cs i ≡ some call
    → get_elem? (change_at i f cs) i ≡ some (f call)
unfolding change_at
get_elem?-change_at i f [] e = absurd (cc)
get_elem?-change_at zero f (c ∷ cs) e = let same : c ≡ _ = cc e in ap (λ x. some (f x)) same
get_elem?-change_at (suc i) f (c ∷ cs) e = get_elem?-change_at i f cs e

resumed_stays :
    (t : Option String) (call : Call) (p : Phase) → p ≢ waiting → resumed t call p ≡ call
unfolding resumed
resumed_stays t call waiting n = absurd (n refl)
resumed_stays t call _ n = refl

module _ {U : Type 0} where
  -- What an error answer does to its call. If a new token may cure it, the call waits, marked as
  -- retried, a refresh is under way, and one was sent if none was before. Else the call is rejected,
  -- and no refresh is begun.
  pub response_error-lem :
      (i : ℕ) (status : Option ℕ) (call : Call) (c : Client U)
      → get_elem? c.calls i ≡ some call
      → (IsExpired status call
          → (get_elem? (response_error i status call c).calls i
              ≡ some (record call { retry = true; phase = waiting }))
            × ((response_error i status call c).refreshing ≡ true)
            × ((response_error i status call c).posts ≡ c.posts + (if c.refreshing then 0 else 1)))
        × (¬ IsExpired status call
            → (get_elem? (response_error i status call c).calls i
                ≡ some (record call { phase = rejected }))
              × ((response_error i status call c).refreshing ≡ c.refreshing)
              × ((response_error i status call c).posts ≡ c.posts))
  unfolding response_error fail_at fail_call do_refresh
  response_error-lem i status call c e =
      let changed = get_elem?-change_at i (fail_call status) c.calls e in
      (
        λ x. let w = (wants_refresh_iff status call).1 x in ground (arith, w, changed),
        λ x. let w : wants_refresh status call ≡ false = gives_up x in ground (arith, w, changed),
      )
    where
      gives_up : ¬ IsExpired status call → wants_refresh status call ≡ false
      gives_up x = elim (Bool-cases (wants_refresh status call)) [
        | inl wants ↦ absurd (x ((wants_refresh_iff status call).0 wants))
        | inr no_wish ↦ no_wish
      ]

  -- What an answered refresh does to a call of the list: with a token, one that waits is sent again
  -- with that token; without, it is rejected; any other stays as it is. In both cases no refresh is
  -- under way any more, and without a token the session is cleared and the page left for /login.
  pub refresh_outcome :
      (token : String) (i : ℕ) (call : Call) (c : Client U)
      → token ≢ ""
      → get_elem? c.calls i ≡ some call
      → (call.phase ≡ waiting
          → (get_elem? (refresh_succeeded token c).calls i
              ≡ some (record call {
                authorization = some token;
                phase = in_flight;
                attempts = call.attempts + 1;
              }))
            × (get_elem? (refresh_failed c).calls i ≡ some (record call { phase = rejected })))
        × (call.phase ≢ waiting
            → (get_elem? (refresh_succeeded token c).calls i ≡ some call)
              × (get_elem? (refresh_failed c).calls i ≡ some call))
        × ((refresh_succeeded token c).refreshing ≡ false)
        × ((refresh_failed c).refreshing ≡ false)
        × ((refresh_failed c).store.access_token ≡ none)
        × ((refresh_failed c).store.user ≡ none)
        × ((refresh_failed c).location ≡ some "/login")
  unfolding refresh_succeeded refresh_failed resume
  refresh_outcome token i call c h e =
      let sent = get_elem?-map i (resume (some token)) c.calls e in
      let stopped = get_elem?-map i (resume none) c.calls e in
      (
        λ w. (sent ∙ ap some (resumes w), stopped ∙ ap some (stops w)),
        λ n. (sent ∙ ap some (stays (some token) n), stopped ∙ ap some (stays none n)),
        refl,
        refl,
        refl,
        refl,
        refl,
      )
    where
      resumes :
          call.phase ≡ waiting
          → resume (some token) call ≡ record call {
            authorization = some token;
            phase = in_flight;
            attempts = call.attempts + 1;
          }
      resumes w = ap (resumed (some token) call) w ∙ ground (arith, eq_iff token "")

      stops : call.phase ≡ waiting → resume none call ≡ record call { phase = rejected }
      stops w = ap (resumed none call) w

      stays : (t : Option String) → call.phase ≢ waiting → resume t call ≡ call
      stays t n = resumed_stays t call call.phase n
