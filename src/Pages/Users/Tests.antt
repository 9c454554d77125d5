-- ===== src/Pages/Users/Tests.antt =====
-- An admin resets a password, and tries to create a user.
use datacenter_manager.Prelude.{true, false, none, some, [], ◌∷◌, ◌≡◌, ◌⊎◌, refl, In}
use datacenter_manager.Api.{Request}
use datacenter_manager.Api.Services.{use_reset_user_password}
use datacenter_manager.Pages.Users.{
  UserRead, State, initial, is_admin, utf16_length, open_create, close_create, open_reset,
  create_message, create_request, handle_create, reset_request, set_create,
}
use datacenter_manager.Pages.Users.Sent.{
  History, opens_reset, types_password, clicks_reset, Reach, start, next, Meant,
}
use datacenter_manager.Pages.Users.Sound.{Reach-Meant}

abbrev user : UserRead
user = record {
  id = "u";
  username = "kim";
  email = none;
  role = "admin";
  is_active = true;
  must_change_password = false;
  last_login_at = none;
  created_at = "2026-01-01T00:00:00Z";
}

abbrev after : History
after = record {
  state = record initial {
    reset_modal = true;
    reset_target = some user;
    new_password = "hunter22";
  };
  edited = [];
  typed = (user, "hunter22") ∷ [];
  sent = (use_reset_user_password "u" "hunter22").request ∷ [];
}

reached : Reach (some user) after
unfolding open_reset reset_request is_admin
reached =
    next refl (next refl (next refl start (opens_reset user)) (types_password "hunter22" refl))
      (clicks_reset refl)

Reach-Meant_example :
    ((r : Request) → In r after.sent → Meant after.edited after.typed r)
    × ((after.sent ≡ []) ⊎ ((u : UserRead) × (some user ≡ some u) × (u.role ≡ "admin")))
Reach-Meant_example = Reach-Meant reached

-- A character beyond the 16 bits counts twice.
two_units : utf16_length "a😀" ≡ 3
unfolding utf16_length
two_units = refl

-- A short password is not sent. Closing the dialog and opening it again shows it and its error.
abbrev short : State
short = handle_create (
    set_create (record { username = "kim"; email = ""; password = "1234567"; role = "admin" })
      (open_create initial))

short_unsent : create_request short ≡ none
unfolding create_request handle_create create_message
short_unsent = refl

short_shown_again : open_create (close_create short) ≡ short
unfolding open_create handle_create
short_shown_again = refl
