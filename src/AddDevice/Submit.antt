-- ===== src/AddDevice/Submit.antt =====
-- What the dialog sends, against the rule that the server puts on new devices.
use datacenter_manager.Prelude.{
  String, ◌≡◌, ◌≢◌, ◌↔◌, Bool, true, false, not, Option, none, some, arith, str_eq, eq_iff,
  Bool-cases, inl, inr, ap,
}
use datacenter_manager.Prelude.Int.{ℤ}
use datacenter_manager.DeviceForm.{get_device_form_config}
use datacenter_manager.DeviceForm.Coherence.{show_rack_placement_iff}
use datacenter_manager.AddDevice.{Props, State, DeviceCreate, submit_body}

-- The validator of backend/app/schemas/device.py: `rack_unit_start` is required with `rack_id`.
abbrev start_given : Option String → Option ℤ → Bool
start_given (some rack) none = false
start_given _ _ = true

pub rack_start_given : DeviceCreate → Bool
rack_start_given b = start_given b.rack_id b.rack_unit_start

shown_lem : (t : String) → (get_device_form_config t).show_rack_placement ≡ not (str_eq t "blade")
shown_lem t = elim (Bool-cases (str_eq t "blade")) [
  | inl blade ↦ rw blade ((show_rack_placement_iff t).1 ((eq_iff t "blade").0 blade))
  | inr other ↦ elim (Bool-cases (get_device_form_config t).show_rack_placement) [
    | inl shown ↦ rw other shown
    | inr hidden ↦ cc (other, (eq_iff t "blade").1 ((show_rack_placement_iff t).0 hidden))
  ]
]

-- What the dialog sends for a type, whatever the rest of its state is: a blade goes to no rack, a
-- PDU to the rack without a place, and any other type to the rack with the place and the height.
pub submit_body_rack :
    (p : Props) (s : State)
    → ((s.device_type ≡ "blade")
        → ((submit_body p s).rack_id ≡ none) × ((submit_body p s).rack_unit_start ≡ none))
      × ((s.device_type ≡ "pdu")
          → ((submit_body p s).rack_id ≡ some p.rack_id)
            × ((submit_body p s).rack_unit_start ≡ none))
      × ((s.device_type ≢ "blade")
          → (s.device_type ≢ "pdu")
          → ((submit_body p s).rack_id ≡ some p.rack_id)
            × ((submit_body p s).rack_unit_start ≡ some s.unit_start)
            × ((submit_body p s).rack_unit_size ≡ some s.height))
unfolding submit_body
submit_body_rack p s =
    let shown = shown_lem s.device_type in
    (
      λ e. let blade = (eq_iff s.device_type "blade").1 e in ground (arith, shown, blade),
      λ e.
          let pdu = (eq_iff s.device_type "pdu").1 e in
          let blade : str_eq s.device_type "blade" ≡ false = ap (λ t. str_eq t "blade") e in
          ground (arith, shown, pdu, blade),
      λ not_blade not_pdu.
          ground (arith, shown, eq_iff s.device_type "blade", eq_iff s.device_type "pdu"),
    )

-- The server's rule refuses the request of the dialog exactly if the type is "pdu".
pub submit_body-refused_iff :
    (p : Props) (s : State) → (rack_start_given (submit_body p s) ≡ false) ↔ (s.device_type ≡ "pdu")
unfolding submit_body rack_start_given
submit_body-refused_iff p s =
    let shown = shown_lem s.device_type in
    (
      λ refused. ground (arith, shown, eq_iff s.device_type "pdu"),
      λ e.
          let pdu = (eq_iff s.device_type "pdu").1 e in
          let blade : str_eq s.device_type "blade" ≡ false = ap (λ t. str_eq t "blade") e in
          ground (arith, shown, pdu, blade),
    )
