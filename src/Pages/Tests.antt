-- ===== src/Pages/Tests.antt =====
-- The dialogs of VLANs and racks on single forms.
use datacenter_manager.Prelude.{
  String, Bool, true, false, Option, none, some, [], ◌∷◌, ◌≡◌, ◌≢◌, refl, ap, str_eq, eq_iff,
}
use datacenter_manager.Prelude.Int.{pos}
use datacenter_manager.Prelude.Numerals.{parse_int, is_blank}
use datacenter_manager.InfraRecords.{RackRead}
use datacenter_manager.Api.{Request}
use datacenter_manager.Api.Server.{Answer, method_not_allowed, status, not_found, unprocessable}
use datacenter_manager.Api.Sample.{server}
use datacenter_manager.Pages.{
  State, Reply, ok, failed, Detail, objects, nothing, initial, open_create, set_form, handle_save,
}
use datacenter_manager.Pages.Vlans.{VlanRead, VlanForm, vlans}
use datacenter_manager.Pages.Racks.{RackForm, to_body, check, form_of, racks}
use datacenter_manager.Pages.Refused.{Rejects, of_vlans, handle_save-patched}
use datacenter_manager.Pages.RoundTrip.{IsFull, rack_stored, rack-to_body-form_of}
use datacenter_manager.Pages.Schema.{conforms, rack_base, unchecked, check-conforms}

abbrev seen : Answer → Reply
seen not_found = failed (Detail.text "Not Found")
seen method_not_allowed = failed (Detail.text "Method Not Allowed")
seen unprocessable = failed (Detail.list ("total_u" ∷ []))
seen (status n) = ok

abbrev send : Request → Reply
send r = seen (server.answer r)

rejects : Rejects server send
rejects r e q = let e' = ap seen e in absurd (cc)

abbrev guest : VlanRead
guest = record { id = "v"; vlan_id = pos 7; name = "guest"; description = none; color = none }

abbrev editing : State VlanRead VlanForm
editing = record {
  modal_open = true;
  editing = some guest;
  form = record { vlan_id = "7"; name = "guests"; description = ""; color = "" };
  delete_target = none;
  error = nothing;
}

handle_save-patched_example : (handle_save vlans send editing).modal_open ≡ true
handle_save-patched_example =
    handle_save-patched server send rejects vlans of_vlans editing guest refl refl

abbrev rack : RackRead
rack = record {
  id = "r";
  corridor_id = "c";
  name = "R1";
  row = some "A";
  column = none;
  total_u = pos 42;
  max_power_w = some (pos 5000);
  max_weight_kg = some "800.00";
  airflow_direction = none;
  power_feed_count = pos 2;
  manufacturer = none;
  model = none;
  serial_number = none;
  status = "active";
  notes = none;
}

some_full : (s : String) → str_eq s "" ≡ false → ◌≢◌ {A = Option String} (some s) (some "")
some_full s h e = let f : str_eq s "" ≡ true = (eq_iff s "").1 (cc e) in absurd (cc)

rack-IsFull : IsFull rack
rack-IsFull = record {
  row = some_full "A" refl;
  column = λ e. cc;
  total_u = λ e. cc;
  max_weight_kg = some_full "800.00" refl;
  airflow_direction = λ e. cc;
  power_feed_count = λ e. cc;
  manufacturer = λ e. cc;
  model = λ e. cc;
  serial_number = λ e. cc;
  notes = λ e. cc;
}

rack-to_body-form_of_example : to_body (form_of rack) ≡ rack_stored rack
rack-to_body-form_of_example = rack-to_body-form_of rack rack-IsFull

abbrev no_power : RackForm
no_power = record (form_of rack) { max_power_w = "0"; total_u = "42"; power_feed_count = "2" }

checks_pass : check no_power ≡ none
unfolding check parse_int is_blank
checks_pass = refl

abbrev any_text : String → Bool
any_text s = true

check-conforms_example :
    conforms any_text any_text rack_base (to_body no_power) ≡ unchecked any_text any_text no_power
check-conforms_example = check-conforms any_text any_text no_power checks_pass

-- The power 0 passes the checks, and the server refuses it.
no_power_refused : unchecked any_text any_text no_power ≡ false
unfolding parse_int
no_power_refused = refl

-- What the server answers then is put into the state as it is.
objects_in_state :
    (handle_save
      (racks none)
      (λ r. failed (Detail.list ("max_power_w" ∷ [])))
      (set_form no_power (open_create (racks none) (initial (racks none))))).error
    ≡ objects ("max_power_w" ∷ [])
unfolding handle_save check parse_int is_blank open_create
objects_in_state = refl
