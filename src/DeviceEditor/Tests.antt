-- ===== src/DeviceEditor/Tests.antt =====
-- Runs of the device dialog.
use datacenter_manager.Prelude.{
  String, ◌≡◌, ◌≢◌, ◌↔◌, refl, ap, true, false, Option, none, some, List, [], ◌∷◌, eq_iff, str_eq,
  head?,
}
use datacenter_manager.Prelude.Int.{pos}
use datacenter_manager.DeviceForm.{DeviceFormSections, get_device_form_config}
use datacenter_manager.DeviceRecords.{DeviceRead}
use datacenter_manager.DeviceEditor.{
  text_of, State, form_of, empty_form, empty_server_ext, empty_network_ext, empty_pdu_ext,
}
use datacenter_manager.DeviceEditor.Body.{to_body}
use datacenter_manager.DeviceEditor.Stored.{IsComplete, stored}
use datacenter_manager.DeviceEditor.RoundTrip.{to_body-form_of}
use datacenter_manager.DeviceEditor.Save.{
  Blade, Request, create, Answer, ok, failed, unreadable, handle_save, chassis_blades,
}
use datacenter_manager.DeviceEditor.Checks.{
  IsChecked, AllOk, handle_save-IsChecked, handle_save-closes_iff,
}
use datacenter_manager.DeviceEditor.Retry.{handle_save-again}
use datacenter_manager.DeviceEditor.ChassisBlades
use datacenter_manager.DeviceEditor.ChassisBlades.{
  IsDistinct, handle_add_blade, handle_add_blade-IsDistinct, empty_blade_form,
}

abbrev sw : DeviceRead
sw = record {
  id = "1";
  rack_id = some "r";
  name = "sw1";
  device_type = "switch";
  manufacturer = none;
  model = none;
  part_number = none;
  serial_number = none;
  asset_tag = none;
  rack_unit_start = some (pos 12);
  rack_unit_size = some (pos 2);
  face = some "rear";
  power_rated_w = none;
  power_actual_w = none;
  weight_kg = none;
  status = "active";
  management_ip = none;
  management_protocol = none;
  snmp_community = none;
  snmp_version = some "v3";
  ssh_username = none;
  purchase_date = none;
  warranty_expiry = none;
  end_of_support_date = none;
  end_of_life_date = none;
  notes = none;
}

some_full : (s : String) → str_eq s "" ≡ false → ◌≢◌ {A = Option String} (some s) (some "")
some_full s h e = let p : text_of (some s) ≡ "" = ap text_of e in let r = (eq_iff s "").1 p in cc

sw-IsComplete : IsComplete sw
sw-IsComplete = record {
  rack_id = some_full "r" refl;
  manufacturer = λ e. cc;
  model = λ e. cc;
  part_number = λ e. cc;
  serial_number = λ e. cc;
  asset_tag = λ e. cc;
  face = some_full "rear" refl;
  weight_kg = λ e. cc;
  management_ip = λ e. cc;
  management_protocol = λ e. cc;
  snmp_community = refl;
  snmp_version = some_full "v3" refl;
  ssh_username = λ e. cc;
  purchase_date = λ e. cc;
  warranty_expiry = λ e. cc;
  end_of_support_date = λ e. cc;
  end_of_life_date = λ e. cc;
  notes = λ e. cc;
  has_size = λ e. cc;
  has_face = λ e. cc;
}

abbrev sw_cfg : DeviceFormSections
sw_cfg = get_device_form_config "switch"

to_body-form_of_example : to_body sw_cfg (form_of sw) ≡ stored sw_cfg sw
to_body-form_of_example = to_body-form_of sw sw_cfg sw-IsComplete

-- A server that is created in a rack.
abbrev new_server : State
new_server = record {
  modal_open = true;
  editing = none;
  form = record (empty_form "r") { name = "web1"; rack_unit_start = "3" };
  server_ext = empty_server_ext;
  network_ext = empty_network_ext;
  pdu_ext = empty_pdu_ext;
  error = "";
  field_errors = [];
}

-- An API that creates the device, and refuses what follows.
abbrev half : Request → Answer
half (create b) = ok "9"
half _ = failed unreadable

new_server_sends : (handle_save half [] new_server).1 ≢ []
unfolding handle_save empty_form empty_server_ext get_device_form_config
new_server_sends e = let h = ap head? e in cc

-- A blade for slot 2 of a chassis whose slot 1 is taken.
abbrev new_blade : State
new_blade = record new_server {
  form = record (empty_form "") { name = "b2"; device_type = "blade" };
  server_ext = record empty_server_ext { blade_chassis_id = "c"; blade_slot = "2" };
}

abbrev held : String → Option (List Blade)
held id = some (record { id = "1"; blade_slot = some (pos 1) } ∷ [])

new_blade_sends : (handle_save half (chassis_blades held new_blade) new_blade).1 ≢ []
unfolding handle_save chassis_blades empty_form empty_server_ext get_device_form_config
new_blade_sends e = let h = ap head? e in cc

handle_save-IsChecked_example : IsChecked held new_blade
handle_save-IsChecked_example = handle_save-IsChecked half held new_blade new_blade_sends

-- In slot 1 the blade is not sent.
abbrev taken : State
taken = record new_blade {
  server_ext = record empty_server_ext { blade_chassis_id = "c"; blade_slot = "1" };
}

slot_refused : (handle_save half (chassis_blades held taken) taken).1 ≡ []
unfolding handle_save chassis_blades empty_form empty_server_ext get_device_form_config
slot_refused = refl

handle_save-closes_iff_example :
    ((handle_save half [] new_server).0.modal_open ≡ false)
    ↔ ((handle_save half [] new_server).1 ≢ []) × AllOk half (handle_save half [] new_server).1
handle_save-closes_iff_example = handle_save-closes_iff half [] new_server refl

handle_save-again_example :
    head? (handle_save half [] (handle_save half [] new_server).0).1
    ≡ head? (handle_save half [] new_server).1
handle_save-again_example = handle_save-again half [] new_server

abbrev blades : List Blade
blades = record { id = "1"; blade_slot = some (pos 1) } ∷ []

blades-IsDistinct : IsDistinct blades
unfolding IsDistinct
blades-IsDistinct = (λ c m. absurd m, tt)

abbrev adding : ChassisBlades.State
adding = record {
  add_open = true;
  blade_form = record empty_blade_form { name = "b2"; slot = "2" };
  blade_error = "";
  blade_slot_error = "";
}

adding_sends : (handle_add_blade half "c" blades adding).1 ≢ []
unfolding handle_add_blade
adding_sends e = let h = ap head? e in cc
