-- ===== src/DeviceEditor/Save.antt =====
-- frontend/src/pages/Devices.tsx: the checks of the dialog and its save. The API is the parameter
-- `send`, which answers each request. The extension tables are saved in parallel: all requests are
-- sent, and the first of them that fails stands for the one whose failure arrives first.
use Prim.Native.String.{◌++◌ as str_append}
use datacenter_manager.Prelude.{
  String, [], ◌∷◌, ◌++◌, Bool, true, false, not, ◌&&◌, Option, none, some, List, map, if◌then◌else◌,
  str_eq, any,
}
use datacenter_manager.Prelude.Int.{ℤ, eqb_ℤ}
use datacenter_manager.Prelude.Numerals.{parse_int, show_int, is_blank}
use datacenter_manager.DeviceEditor.Ip.{is_ip}
use datacenter_manager.DeviceForm.{DeviceFormSections}
use datacenter_manager.DeviceRecords.{DeviceRead}
use datacenter_manager.DeviceEditor.{FormData, State, text_of}
use datacenter_manager.DeviceEditor.Body.{
  Body, cfg_of, to_body, to_server_ext_body, to_network_ext_body, to_pdu_ext_body,
}

abbrev or_nil : {A : Type 0} → Option (List A) → List A
or_nil none = []
or_nil (some xs) = xs

-- A blade of the chassis: `server_detail?.blade_slot`.
pub record Blade : Type 0 where
  pub id : String
  pub blade_slot : Option ℤ

-- `slot === n`, for a slot that may be missing and an `n` that may be NaN
abbrev pub same_slot : Option ℤ → Option ℤ → Bool
same_slot (some slot) (some n) = eqb_ℤ slot n
same_slot _ _ = false

abbrev pub is_editing : Option DeviceRead → String → Bool
is_editing none id = false
is_editing (some d) id = str_eq d.id id

unfoldable pub slot_taken : List Blade → Option DeviceRead → Option ℤ → Bool
slot_taken blades editing n =
    any (λ b. same_slot b.blade_slot n && not (is_editing editing b.id)) blades

abbrev pub when_error : Bool → String → String → List (String × String)
when_error true key message = (key, message) ∷ []
when_error false key message = []

unfoldable pub ip_error : String → List (String × String)
unfolding is_ip
ip_error ip =
    when_error (not (str_eq ip "") && not (is_ip ip)) "management_ip"
      "Must be a valid IPv4 or IPv6 address"

unfoldable pub place_error : DeviceFormSections → FormData → List (String × String)
place_error cfg f =
    when_error
      (cfg.show_rack_placement
        && cfg.rack_placement_required
        && not (str_eq f.rack_id "")
        && str_eq f.rack_unit_start "")
      "rack_unit_start" "Required when rack is selected"

-- A slot that is NaN is never taken.
abbrev pub number_text : Option ℤ → String
number_text none = "NaN"
number_text (some n) = show_int n

unfoldable pub slot_error : List Blade → Option DeviceRead → String → List (String × String)
unfolding slot_taken parse_int show_int
slot_error blades editing slot =
    if str_eq slot ""
    then when_error true "blade_slot" "Required for blade devices"
    else when_error (slot_taken blades editing (parse_int slot)) "blade_slot" (
        str_append "Slot "
          (str_append (number_text (parse_int slot)) " is already occupied in this chassis"))

unfoldable pub blade_errors : DeviceFormSections → List Blade → State → List (String × String)
unfolding slot_error
blade_errors cfg blades s =
    if cfg.show_blade_extension
    then when_error (str_eq s.server_ext.blade_chassis_id "") "blade_chassis_id"
        "Required for blade devices"
      ++ slot_error blades s.editing s.server_ext.blade_slot
    else []

-- The chassis whose blades are asked for, if the type is a blade's and one is chosen.
abbrev chosen_chassis : State → Option String
chosen_chassis s =
    if (cfg_of s).show_blade_extension && not (str_eq s.server_ext.blade_chassis_id "")
    then some s.server_ext.blade_chassis_id
    else none

abbrev cached_blades : (String → Option (List Blade)) → Option String → List Blade
cached_blades cached none = []
cached_blades cached (some id) = or_nil (cached id)

-- `chassisBlades ?? []`, with what the query library holds for each chassis: nothing before the answer,
-- or if the server refuses the request.
unfoldable pub chassis_blades : (String → Option (List Blade)) → State → List Blade
chassis_blades cached s = cached_blades cached (chosen_chassis s)

-- `errs` of `validate`, with `chassisBlades ?? []`.
unfoldable pub validate : List Blade → State → List (String × String)
unfolding ip_error place_error blade_errors
validate blades s =
    ip_error s.form.management_ip
    ++ (place_error (cfg_of s) s.form ++ blade_errors (cfg_of s) blades s)

pub data Request : Type 0 where
  create : Body → Request
  update : String → Body → Request
  put_server put_network put_pdu : String → Body → Request

-- `detail` of an error's answer: a text, a list of `msg`, or anything else.
pub data Detail : Type 0 where
  message : String → Detail
  messages : List (Option String) → Detail
  unreadable : Detail

-- The id of the device that is created, which only the answer to `create` is read for.
pub data Answer : Type 0 where
  ok : String → Answer
  failed : Detail → Answer

abbrev joined : String → List String → String
joined x [] = x
joined x (y ∷ ys) = str_append x (str_append "; " (joined y ys))

-- xs.join("; ")
abbrev join : List String → String
join [] = ""
join (x ∷ xs) = joined x xs

-- det.map((d) => d.msg ?? "").join("; ")
abbrev pub joined_messages : List (Option String) → String
joined_messages ms = join (map text_of ms)

unfoldable error_text : Detail → String
error_text (message m) = m
error_text (messages ms) = joined_messages ms
error_text unreadable = "Save failed."

abbrev request_for : (String → Body → Request) → String → Option Body → List Request
request_for put id none = []
request_for put id (some b) = put id b ∷ []

unfoldable pub ext_saves : String → State → List Request
unfolding to_server_ext_body to_network_ext_body to_pdu_ext_body
ext_saves id s =
    request_for put_server id (to_server_ext_body (cfg_of s) s)
    ++ (request_for put_network id (to_network_ext_body (cfg_of s) s)
        ++ request_for put_pdu id (to_pdu_ext_body (cfg_of s) s))

unfoldable pub answered : Answer → State → State → State
unfolding error_text
answered (ok id) after s = after
answered (failed d) after s = record s { error = error_text d }

module _ (send : Request → Answer) where
  -- Promise.all(extSaves), and the end of the `try`.
  unfoldable pub all_saved : List Request → State → State
  unfolding answered
  all_saved [] s = record s { modal_open = false }
  all_saved (r ∷ rs) s = let after = all_saved rs s in answered (send r) after s

abbrev pub first_request : Option DeviceRead → Body → Request
first_request none b = create b
first_request (some d) b = update d.id b

abbrev pub saved_id : Option DeviceRead → String → String
saved_id none new_id = new_id
saved_id (some d) new_id = d.id

module _ (send : Request → Answer) where
  -- What follows the answer to the first request: the state, and the requests that were sent.
  unfoldable pub saved : Request → Answer → State → State × List Request
  unfolding all_saved ext_saves error_text
  saved r (failed d) s = (record s { error = error_text d }, r ∷ [])
  saved r (ok new_id) s =
      let exts = ext_saves (saved_id s.editing new_id) s in (all_saved send exts s, r ∷ exts)

  unfoldable pub checked : List (String × String) → State → State × List Request
  unfolding saved to_body
  checked [] s =
      let r = first_request s.editing (to_body (cfg_of s) s.form) in
      saved r (send r) (record s { field_errors = [] })
  checked (e ∷ errs) s = (record s { field_errors = e ∷ errs }, [])

  unfoldable pub handle_save : List Blade → State → State × List Request
  unfolding checked validate is_blank
  handle_save blades s =
      if is_blank s.form.name
      then (record s { error = "Name is required." }, [])
      else checked (validate blades (record s { error = "" })) (record s { error = "" })
