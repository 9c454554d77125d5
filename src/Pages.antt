-- ===== src/Pages.antt =====
-- The pages of lists under frontend/src/pages that edit their rows in a dialog. They share their
-- state, how the dialog opens, saves and closes, and the deletion; what differs is a `Page`, one in
-- each child module but Users, whose three dialogs are its own. The list and its pager are in
-- DeviceList, the hooks in Api.
pub mod Vlans
pub mod SanFabrics
pub mod Licenses
pub mod Racks
pub mod Rooms
pub mod Corridors
pub mod DataCenters
pub mod Users
pub mod Subnets
pub mod Dialog
pub mod Refused
pub mod RoundTrip
pub mod Schema
mod Tests
use datacenter_manager.Prelude.{ℕ, String, Bool, true, false, Option, none, some, List}
use datacenter_manager.Api.{Request, Mutation}

-- What the dialog shows: nothing, a text, or the list of objects that a 422 carries as its `detail`.
pub data Error : Type 0 where
  nothing : Error
  shown : String → Error
  objects : List String → Error

-- `e.response?.data?.detail` of a request that failed.
pub data Detail : Type 0 where
  missing : Detail
  text : String → Detail
  list : List String → Detail

pub data Reply : Type 0 where
  ok : Reply
  failed : Detail → Reply

-- `detail ?? "Save failed."`, which is put into the state whatever it is
abbrev pub error_of : Detail → Error
error_of missing = shown "Save failed."
error_of (text s) = shown s
error_of (list es) = objects es

pub record Page (Row Form : Type 0) : Type 0 where
  pub row_id : Row → String
  pub empty_form : Form
  pub form_of : Row → Form
  pub check : Form → Option String
  pub create_with : Form → Mutation
  pub update_with : String → Form → Mutation
  pub remove_with : String → Mutation

pub record State (Row Form : Type 0) : Type 0 where
  pub modal_open : Bool
  pub editing : Option Row
  pub form : Form
  pub delete_target : Option Row
  pub error : Error

module _ {Row Form : Type 0} (p : Page Row Form) where
  abbrev pub initial : State Row Form
  initial = record {
    modal_open = false;
    editing = none;
    form = p.empty_form;
    delete_target = none;
    error = nothing;
  }

  unfoldable pub open_create : State Row Form → State Row Form
  open_create s = record s {
    editing = none;
    form = p.empty_form;
    error = nothing;
    modal_open = true;
  }

  unfoldable pub open_edit : Row → State Row Form → State Row Form
  open_edit r s = record s {
    editing = some r;
    form = p.form_of r;
    error = nothing;
    modal_open = true;
  }

  abbrev mutation_for : Option Row → Form → Mutation
  mutation_for none f = p.create_with f
  mutation_for (some r) f = p.update_with (p.row_id r) f

  -- `if (editing) updateMut…; else createMut…`
  unfoldable pub mutation_of : State Row Form → Mutation
  mutation_of s = mutation_for s.editing s.form

  abbrev answered : State Row Form → Reply → State Row Form
  answered s ok = record s { error = nothing; modal_open = false }
  answered s (failed d) = record s { error = error_of d }

  abbrev checked : (Request → Reply) → State Row Form → Option String → State Row Form
  checked send s none = answered s (send (mutation_of s).request)
  checked send s (some message) = record s { error = shown message }

  -- `send` is the API. Without a message from the checks one request is sent.
  unfoldable pub handle_save : (Request → Reply) → State Row Form → State Row Form
  handle_save send s = checked send s (p.check s.form)

  abbrev confirmed : State Row Form → Reply → State Row Form
  confirmed s ok = record s { delete_target = none }
  confirmed s (failed d) = s

  abbrev deleted : (Request → Reply) → State Row Form → Option Row → State Row Form
  deleted send s none = s
  deleted send s (some r) = confirmed s (send (p.remove_with (p.row_id r)).request)

  -- `onConfirm` of the dialog that asks before a deletion: an error leaves it open.
  unfoldable pub confirm_delete : (Request → Reply) → State Row Form → State Row Form
  confirm_delete send s = deleted send s s.delete_target

module _ {Row Form : Type 0} where
  abbrev pub close : State Row Form → State Row Form
  close s = record s { modal_open = false }

  abbrev pub set_form : Form → State Row Form → State Row Form
  set_form f s = record s { form = f }

  abbrev pub set_delete_target : Option Row → State Row Form → State Row Form
  set_delete_target r s = record s { delete_target = r }
