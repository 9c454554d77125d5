-- ===== src/ChassisView/Tests.antt =====
-- A chassis whose only blade is in its second slot.
use datacenter_manager.Prelude.{◌≡◌, ◌≢◌, refl, inl, true, some, List, [], ◌∷◌, map}
use datacenter_manager.Prelude.Int.{pos}
use datacenter_manager.Prelude.Numerals.{parse_int, is_blank}
use datacenter_manager.DeviceEditor.Save.{Request, Answer, ok}
use datacenter_manager.DeviceEditor.ChassisBlades.{handle_add_blade, empty_blade_form}
use datacenter_manager.DeviceEditor.ChassisBlades as ChassisBlades
use datacenter_manager.ChassisView.{
  ServerBlade, dialog_blades, topology_fetched, devices_fetched, with_detail, next_slot, cards,
}
use datacenter_manager.ChassisView.SharedKey.{dialog_blades-handle_add_blade}

abbrev held : List ServerBlade
held = record { id = "7"; name = "b7"; blade_slot = some (pos 2) } ∷ []

abbrev adding : ChassisBlades.State
adding = record {
  add_open = true;
  blade_form = record empty_blade_form { name = "b8"; slot = "2" };
  blade_error = "";
  blade_slot_error = "";
}

abbrev accepts : Request → Answer
accepts r = ok "8"

dialog_blades-handle_add_blade_example :
    ((handle_add_blade accepts "c" (dialog_blades "c" (devices_fetched "c" held [])) adding).1 ≡ [])
    × ((handle_add_blade accepts "c" (dialog_blades "c" (topology_fetched "c" held [])) adding).1
        ≢ [])
unfolding parse_int is_blank
dialog_blades-handle_add_blade_example =
    dialog_blades-handle_add_blade accepts "c" held [] adding
      (record { id = "7"; name = "b7"; blade_slot = some (pos 2) }) (pos 2) (inl refl) refl refl
      refl refl

suggested_slot :
    (next_slot (some (map with_detail held)) ≡ pos 2)
    × (cards (map with_detail held) ≡ (1, "b7") ∷ [])
unfolding next_slot
suggested_slot = (refl, refl)
