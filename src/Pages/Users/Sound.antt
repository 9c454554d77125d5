-- ===== src/Pages/Users/Sound.antt =====
-- The requests of the page of users are meant for the user that they go to.
use datacenter_manager.Prelude.{
  String, ◌≤◌, Bool, true, false, Option, none, some, List, [], ◌||◌, ◌≡◌, ◌⊎◌, inl, inr, refl, ap,
  subst, str_eq, eq_iff, ltb, In, Bool-cases, Option-cases, arith,
}
use datacenter_manager.Api.{Request}
use datacenter_manager.Api.Services.{use_update_user, use_reset_user_password}
use datacenter_manager.Pages.{ok, failed}
use datacenter_manager.Pages.Users.{
  UserRead, CreateForm, EditForm, State, is_admin, utf16_length, edit_form_of, edit_body,
  open_create, open_edit, open_reset, create_message, create_request, handle_create,
  create_answered, edit_request, edit_answered, reset_request, reset_answered,
}
use datacenter_manager.Pages.Users.Sent.{
  History, for_user, sends, begin, Step, opens_create, opens_edit, opens_reset, types_create,
  types_edit, types_password, closes_create, closes_edit, closes_reset, clicks_create, clicks_save,
  clicks_reset, answers_create, answers_edit, answers_reset, Reach, start, next, Meant, creates,
  updates, resets,
}

-- An open dialog has its user, and holds what the history has of that user.
unfoldable pub IsSound : History → Type 0
IsSound h =
    (h.state.edit_modal ≡ true → (u : UserRead) × (h.state.editing_user ≡ some u))
    × (h.state.reset_modal ≡ true → (u : UserRead) × (h.state.reset_target ≡ some u))
    × ((u : UserRead) → h.state.editing_user ≡ some u → In (u, h.state.edit_form) h.edited)
    × ((u : UserRead)
        → h.state.reset_target ≡ some u
        → (h.state.new_password ≡ "") ⊎ In (u, h.state.new_password) h.typed)
    × ((r : Request) → In r h.sent → Meant h.edited h.typed r)

In-for_user :
    {A : Type 0} (o : Option UserRead) (a : A) (p : UserRead × A) (xs : List (UserRead × A))
    → In p xs
    → In p (for_user o a xs)
In-for_user none a p xs i = i
In-for_user (some u) a p xs i = inr i

In-for_user_head :
    {A : Type 0} (o : Option UserRead) (u : UserRead) (a : A) (xs : List (UserRead × A))
    → o ≡ some u
    → In (u, a) (for_user o a xs)
In-for_user_head none u a xs e = absurd (cc)
In-for_user_head (some v) u a xs e = let same : v ≡ u = cc e in inl (ap (λ w. (w, a)) same)

In-sends :
    (o : Option Request) (r : Request) (rs : List Request)
    → In r (sends o rs)
    → (o ≡ some r) ⊎ In r rs
In-sends none r rs i = inr i
In-sends (some q) r rs (inl e) = inl (ap some e)
In-sends (some q) r rs (inr i) = inr i

Meant-weaken :
    {es es' : List (UserRead × EditForm)} {ts ts' : List (UserRead × String)} {r : Request}
    → ((p : UserRead × EditForm) → In p es → In p es')
    → ((p : UserRead × String) → In p ts → In p ts')
    → Meant es ts r
    → Meant es' ts' r
Meant-weaken f g (creates c named long) = creates c named long
Meant-weaken f g (updates u e i) = updates u e (f (u, e) i)
Meant-weaken f g (resets u t i long) = resets u t (g (u, t) i) long

create_message-none :
    (f : CreateForm)
    → create_message f ≡ none
    → (str_eq f.username "" ≡ false) × (8 ≤ utf16_length f.password)
unfolding create_message
create_message-none f e = (ground arith, ground arith)

module _ {es : List (UserRead × EditForm)} {ts : List (UserRead × String)} (s : State)
    (r : Request) where
  create_request-Meant : create_request s ≡ some r → Meant es ts r
  unfolding create_request
  create_request-Meant e = elim (Option-cases (create_message s.create_form)) [
    | inl n ↦
        let c = create_message-none s.create_form n in
        let same : _ ≡ r = cc (rw n at e) in
        subst (Meant es ts) same (creates s.create_form c.0 c.1)
    | inr (m, n) ↦ let e' = rw n at e in absurd (cc)
  ]

  save-Meant :
      (u : UserRead) × (s.editing_user ≡ some u)
      → ((u : UserRead) → s.editing_user ≡ some u → In (u, s.edit_form) es)
      → edit_request s ≡ r
      → Meant es ts r
  unfolding edit_request
  save-Meant (u, editing) shown e =
      let same : (use_update_user u.id (edit_body s.edit_form)).request ≡ r = cc (editing, e) in
      subst (Meant es ts) same (updates u s.edit_form (shown u editing))

  reset_request-Meant :
      (u : UserRead)
      → s.reset_target ≡ some u
      → (s.new_password ≡ "") ⊎ In (u, s.new_password) ts
      → reset_request s ≡ some r
      → Meant es ts r
  unfolding reset_request
  reset_request-Meant u target typed e = elim (Bool-cases short) [
    | inl on ↦ let e' = rw on at e in absurd (cc)
    | inr off ↦
        let same : (use_reset_user_password u.id s.new_password).request ≡ r =
          cc (rw (off, target) at e) in
        elim typed [
          | inl empty ↦
              let full = (eq_iff s.new_password "").1 empty in absurd (ground (arith, off))
          | inr i ↦ subst (Meant es ts) same (resets u s.new_password i (ground (arith, off)))
        ]
  ]
    where
      short : Bool
      short = str_eq s.new_password "" || ltb (utf16_length s.new_password) 8

Step-IsSound : {h k : History} → Step h k → IsSound h → IsSound k
unfolding IsSound open_create open_edit open_reset handle_create edit_request edit_answered
    reset_answered create_answered
Step-IsSound opens_create i = i
Step-IsSound (opens_edit u) (a, b, c, d, m) = (
  λ e. (u, refl),
  b,
  λ v e. let same : u ≡ v = cc e in inl (ap (λ w. (w, edit_form_of u)) same),
  d,
  λ r q. Meant-weaken (λ p x. inr x) (λ p x. x) (m r q),
)
Step-IsSound (opens_reset u) (a, b, c, d, m) = (a, λ e. (u, refl), c, λ v e. inl refl, m)
Step-IsSound (types_create f o) i = i
Step-IsSound {h} (types_edit f o) (a, b, c, d, m) = (
  a,
  b,
  λ v e. In-for_user_head h.state.editing_user v f h.edited e,
  d,
  λ r q. Meant-weaken (λ p x. In-for_user h.state.editing_user f p h.edited x) (λ p x. x) (m r q),
)
Step-IsSound {h} (types_password t o) (a, b, c, d, m) = (
  a,
  b,
  c,
  λ v e. inr (In-for_user_head h.state.reset_target v t h.typed e),
  λ r q. Meant-weaken (λ p x. x) (λ p x. In-for_user h.state.reset_target t p h.typed x) (m r q),
)
Step-IsSound closes_create i = i
Step-IsSound closes_edit (a, b, c, d, m) = (λ e. absurd (cc), b, c, d, m)
Step-IsSound closes_reset (a, b, c, d, m) = (a, λ e. absurd (cc), c, d, m)
Step-IsSound {h} (clicks_create o) (a, b, c, d, m) = (
  a,
  b,
  c,
  d,
  λ r q. elim (In-sends (create_request h.state) r h.sent q) [
    | inl e ↦ create_request-Meant h.state r e
    | inr old ↦ m r old
  ],
)
Step-IsSound {h} (clicks_save o) (a, b, c, d, m) =
    (a, b, c, d, λ r q. elim q [ inl e ↦ save-Meant h.state r (a o) c e | inr old ↦ m r old ])
Step-IsSound {h} (clicks_reset o) (a, b, c, d, m) = (
  a,
  b,
  c,
  d,
  λ r q. elim (In-sends (reset_request h.state) r h.sent q) [
    | inl e ↦ let (u, target) = b o in reset_request-Meant h.state r u target (d u target) e
    | inr old ↦ m r old
  ],
)
Step-IsSound (answers_create ok) i = i
Step-IsSound (answers_create (failed e)) i = i
Step-IsSound (answers_edit ok) (a, b, c, d, m) = (λ e. absurd (cc), b, c, d, m)
Step-IsSound (answers_edit (failed e)) i = i
Step-IsSound (answers_reset ok) (a, b, c, d, m) = (a, λ e. absurd (cc), c, d, m)
Step-IsSound (answers_reset (failed e)) i = i

-- The page is shown to a user with the role only.
is_admin-role :
    (current : Option UserRead)
    → is_admin current ≡ true
    → (u : UserRead) × (current ≡ some u) × (u.role ≡ "admin")
unfolding is_admin
is_admin-role none admin = absurd (cc)
is_admin-role (some u) admin = (u, refl, (eq_iff u.role "admin").0 admin)

begin-IsSound : IsSound begin
unfolding IsSound
begin-IsSound =
    (λ e. absurd (cc), λ e. absurd (cc), λ u e. absurd (cc), λ u e. absurd (cc), λ r q. absurd q)

-- Whatever is clicked, typed and answered in whatever order, each request that the page has sent is
-- meant: it creates a user with a name and a password of at least 8 characters, sends for a user what
-- the dialog held that was opened for that user, or resets a user's password to at least 8
-- characters that were typed in the dialog of that user. Nothing is sent unless there is a current user
-- whose role is "admin".
pub Reach-Meant :
    {current : Option UserRead} {h : History}
    → Reach current h
    → ((r : Request) → In r h.sent → Meant h.edited h.typed r)
      × ((h.sent ≡ []) ⊎ ((u : UserRead) × (current ≡ some u) × (u.role ≡ "admin")))
unfolding IsSound
Reach-Meant {current} {h} reached = let (a, b, c, d, m) = sound reached in (m, allowed reached)
  where
    sound : {h : History} → Reach current h → IsSound h
    sound start = begin-IsSound
    sound (next admin r st) = Step-IsSound st (sound r)

    allowed :
        {h : History}
        → Reach current h
        → (h.sent ≡ []) ⊎ ((u : UserRead) × (current ≡ some u) × (u.role ≡ "admin"))
    allowed start = inl refl
    allowed (next admin r st) = inr (is_admin-role current admin)
