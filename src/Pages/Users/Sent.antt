-- ===== src/Pages/Users/Sent.antt =====
-- What the page of users sends over any sequence of clicks, typing and answers.
use datacenter_manager.Prelude.{
  String, ◌≤◌, true, false, Option, none, some, List, [], ◌∷◌, ◌≡◌, str_eq, In,
}
use datacenter_manager.Api.{Request}
use datacenter_manager.Api.Services.{use_create_user, use_update_user, use_reset_user_password}
use datacenter_manager.Pages.{Reply}
use datacenter_manager.Pages.Users.{
  UserRead, CreateForm, EditForm, State, initial, is_admin, utf16_length, edit_form_of, open_create,
  open_edit, open_reset, create_body, edit_body, create_request, handle_create, create_answered,
  edit_request, edit_answered, reset_request, reset_answered, set_create, set_edit,
  set_new_password, close_create, close_edit, close_reset,
}

-- The page, what its dialogs have held for each user, and what it has sent, the newest first.
pub record History : Type 0 where
  pub state : State
  pub edited : List (UserRead × EditForm)
  pub typed : List (UserRead × String)
  pub sent : List Request

abbrev pub for_user : {A : Type 0} → Option UserRead → A → List (UserRead × A) → List (UserRead × A)
for_user none a xs = xs
for_user (some u) a xs = (u, a) ∷ xs

abbrev pub sends : Option Request → List Request → List Request
sends none rs = rs
sends (some r) rs = r ∷ rs

abbrev pub begin : History
begin = record { state = initial; edited = []; typed = []; sent = [] }

abbrev pub moved : State → History → History
moved s h = record h { state = s }

-- A dialog takes typing and clicks while it is open. An answer may come at any time.
pub data Step (h : History) : History → Type 0 where
  opens_create : Step h (moved (open_create h.state) h)
  opens_edit :
      (u : UserRead)
      → Step h (record h { state = open_edit u h.state; edited = (u, edit_form_of u) ∷ h.edited })
  opens_reset : (u : UserRead) → Step h (moved (open_reset u h.state) h)
  types_create :
      (f : CreateForm) → h.state.create_modal ≡ true → Step h (moved (set_create f h.state) h)
  types_edit :
      (f : EditForm)
      → h.state.edit_modal ≡ true
      → Step h (record h {
        state = set_edit f h.state;
        edited = for_user h.state.editing_user f h.edited;
      })
  types_password :
      (t : String)
      → h.state.reset_modal ≡ true
      → Step h (record h {
        state = set_new_password t h.state;
        typed = for_user h.state.reset_target t h.typed;
      })
  closes_create : Step h (moved (close_create h.state) h)
  closes_edit : Step h (moved (close_edit h.state) h)
  closes_reset : Step h (moved (close_reset h.state) h)
  clicks_create :
      h.state.create_modal ≡ true
      → Step h
          (record h { state = handle_create h.state; sent = sends (create_request h.state) h.sent })
  clicks_save :
      h.state.edit_modal ≡ true → Step h (record h { sent = edit_request h.state ∷ h.sent })
  clicks_reset :
      h.state.reset_modal ≡ true → Step h (record h { sent = sends (reset_request h.state) h.sent })
  answers_create : (r : Reply) → Step h (moved (create_answered r h.state) h)
  answers_edit : (r : Reply) → Step h (moved (edit_answered r h.state) h)
  answers_reset : (r : Reply) → Step h (moved (reset_answered r h.state) h)

-- What the page of `current` reaches: without the role the page shows no button.
pub data Reach (current : Option UserRead) : History → Type 0 where
  start : Reach current begin
  next : {h k : History} → is_admin current ≡ true → Reach current h → Step h k → Reach current k

-- The creation of a user with a name and at least 8 characters of password, the edit of a user as
-- that user's dialog held it, or the reset to a password of at least 8 characters that was typed
-- in that user's dialog.
pub data Meant (edited : List (UserRead × EditForm)) (typed : List (UserRead × String))
    : Request → Type 0 where
  creates :
      (f : CreateForm)
      → str_eq f.username "" ≡ false
      → 8 ≤ utf16_length f.password
      → Meant edited typed (use_create_user (create_body f)).request
  updates :
      (u : UserRead) (f : EditForm)
      → In (u, f) edited
      → Meant edited typed (use_update_user u.id (edit_body f)).request
  resets :
      (u : UserRead) (t : String)
      → In (u, t) typed
      → 8 ≤ utf16_length t
      → Meant edited typed (use_reset_user_password u.id t).request
