-- ===== src/Pages/Users.antt =====
-- frontend/src/pages/UserManagement.tsx: three dialogs, whose requests and answers are separate
-- steps, since the page can be used while a request is under way. The table and the pager are left out.
pub mod Sent
pub mod Sound
mod Tests
use Prim.Native.Char.{Char, code}
use datacenter_manager.Prelude.{
  ℕ, ◌+◌, String, Bool, true, false, Option, none, some, [], ◌∷◌, ◌||◌, str_eq, if◌then◌else◌, ltb,
  leb,
}
use datacenter_manager.DeviceEditor.{text_of}
use datacenter_manager.DeviceEditor.Body.{Body, Value, or_null}
use datacenter_manager.Api.{Request}
use datacenter_manager.Api.Services.{use_create_user, use_update_user, use_reset_user_password}
use datacenter_manager.Pages.{Error, nothing, shown, objects, Detail, Reply, ok, failed}

pub record UserRead : Type 0 where
  pub id : String
  pub username : String
  pub email : Option String
  pub role : String
  pub is_active : Bool
  pub must_change_password : Bool
  pub last_login_at : Option String
  pub created_at : String

pub record CreateForm : Type 0 where
  pub username : String
  pub email : String
  pub password : String
  pub role : String

pub record EditForm : Type 0 where
  pub email : String
  pub role : String
  pub is_active : Bool
  pub must_change_password : Bool

pub record State : Type 0 where
  pub create_modal : Bool
  pub create_form : CreateForm
  pub create_error : Error
  pub edit_modal : Bool
  pub editing_user : Option UserRead
  pub edit_form : EditForm
  pub reset_modal : Bool
  pub reset_target : Option UserRead
  pub new_password : String

abbrev pub empty_create_form : CreateForm
empty_create_form = record { username = ""; email = ""; password = ""; role = "read_only" }

abbrev pub initial : State
initial = record {
  create_modal = false;
  create_form = empty_create_form;
  create_error = nothing;
  edit_modal = false;
  editing_user = none;
  edit_form = record {
    email = "";
    role = "read_only";
    is_active = true;
    must_change_password = false;
  };
  reset_modal = false;
  reset_target = none;
  new_password = "";
}

-- `currentUser?.role !== "admin"` shows a refusal in place of the page.
unfoldable pub is_admin : Option UserRead → Bool
is_admin none = false
is_admin (some u) = str_eq u.role "admin"

-- `length` of a string counts UTF-16 units.
unfoldable pub utf16_length : String → ℕ
utf16_length String.[] = 0
utf16_length (String.◌∷◌ c s) = (if leb 65536 (code c) then 2 else 1) + utf16_length s

abbrev pub edit_form_of : UserRead → EditForm
edit_form_of u = record {
  email = text_of u.email;
  role = u.role;
  is_active = u.is_active;
  must_change_password = u.must_change_password;
}

-- The button that opens the dialog leaves the form and its message as they were.
unfoldable pub open_create : State → State
open_create s = record s { create_modal = true }

unfoldable pub open_edit : UserRead → State → State
open_edit u s = record s { editing_user = some u; edit_form = edit_form_of u; edit_modal = true }

unfoldable pub open_reset : UserRead → State → State
open_reset u s = record s { reset_target = some u; new_password = ""; reset_modal = true }

abbrev pub create_body : CreateForm → Body
create_body f =
    ("username", Value.text f.username)
    ∷ ("email", or_null f.email)
    ∷ ("password", Value.text f.password)
    ∷ ("role", Value.text f.role)
    ∷ []

abbrev pub edit_body : EditForm → Body
edit_body f =
    ("email", or_null f.email)
    ∷ ("role", Value.text f.role)
    ∷ ("is_active", Value.bool f.is_active)
    ∷ ("must_change_password", Value.bool f.must_change_password)
    ∷ []

unfoldable pub create_message : CreateForm → Option String
unfolding utf16_length
create_message f =
    if str_eq f.username "" || str_eq f.password ""
    then some "Username and password are required."
    else if ltb (utf16_length f.password) 8
    then some "Password must be at least 8 characters."
    else none

abbrev pub create_with : Option String → CreateForm → Option Request
create_with none f = some (use_create_user (create_body f)).request
create_with (some message) f = none

abbrev pub message_error : Option String → Error
message_error none = nothing
message_error (some message) = shown message

-- What a click on Create sends, if anything, and what it does before the answer.
unfoldable pub create_request : State → Option Request
create_request s = create_with (create_message s.create_form) s.create_form

unfoldable pub handle_create : State → State
handle_create s = record s { create_error = message_error (create_message s.create_form) }

abbrev create_error_of : Detail → Error
create_error_of Detail.missing = shown "Failed to create user."
create_error_of (Detail.text t) = shown t
create_error_of (Detail.list es) = objects es

unfoldable pub create_answered : Reply → State → State
create_answered ok s = record s { create_modal = false; create_form = empty_create_form }
create_answered (failed d) s = record s { create_error = create_error_of d }

-- `x?.id ?? ""`
abbrev pub id_of : Option UserRead → String
id_of none = ""
id_of (some u) = u.id

unfoldable pub edit_request : State → Request
edit_request s = (use_update_user (id_of s.editing_user) (edit_body s.edit_form)).request

-- An error is not caught, so that nothing is shown.
unfoldable pub edit_answered : Reply → State → State
edit_answered ok s = record s { edit_modal = false }
edit_answered (failed d) s = s

unfoldable pub reset_request : State → Option Request
unfolding utf16_length
reset_request s =
    if str_eq s.new_password "" || ltb (utf16_length s.new_password) 8
    then none
    else some (use_reset_user_password (id_of s.reset_target) s.new_password).request

unfoldable pub reset_answered : Reply → State → State
reset_answered ok s = record s { reset_modal = false }
reset_answered (failed d) s = s

abbrev pub set_create : CreateForm → State → State
set_create f s = record s { create_form = f }

abbrev pub set_edit : EditForm → State → State
set_edit f s = record s { edit_form = f }

abbrev pub set_new_password : String → State → State
set_new_password t s = record s { new_password = t }

abbrev pub close_create : State → State
close_create s = record s { create_modal = false }

abbrev pub close_edit : State → State
close_edit s = record s { edit_modal = false }

abbrev pub close_reset : State → State
close_reset s = record s { reset_modal = false }
