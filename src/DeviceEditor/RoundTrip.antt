-- ===== src/DeviceEditor/RoundTrip.antt =====
-- Saving a device that was opened and not changed.
use datacenter_manager.Prelude.{
  String, true, false, none, In, inl, inr, ◌≡◌, ◌↔◌, refl, str_eq, eq_iff, Bool-cases,
  In-append_right,
}
use datacenter_manager.DeviceForm.{DeviceFormSections}
use datacenter_manager.DeviceRecords.{DeviceRead}
use datacenter_manager.DeviceEditor.{form_of, text_of}
use datacenter_manager.DeviceEditor.Body.{
  Body, Value, null, or_null, section, to_body, base_entries, rack_entries, power_entries,
  date_entries, management_entries,
}
use datacenter_manager.DeviceEditor.Entries.{All, All-In, All-to_body}
use datacenter_manager.DeviceEditor.Stored.{stored, IsComplete, to_body-stored}

-- The dialog is opened for a device and saved with nothing changed. Whatever sections its type shows, the
-- body is exactly what the API answered in these sections, entry for entry, if the device has no empty
-- text, a height and a face; and where the type shows SNMP, also an empty community, which the API
-- never answers, so that the one that is stored is lost.
pub to_body-form_of :
    (d : DeviceRead) (cfg : DeviceFormSections)
    → IsComplete d
    → to_body cfg (form_of d) ≡ stored cfg d
to_body-form_of d cfg c = to_body-stored d c cfg

-- An entry with another key.
abbrev Other : String → (String × Value) → Type 0
Other key e = str_eq e.0 key ≡ false

no_entry : (key : String) (value : Value) (b : Body) → All (Other key) b → In (key, value) b → ⊥
no_entry key value b all m =
    let h : str_eq key key ≡ false = All-In (Other key) b (key, value) all m in
    let r = (eq_iff key key).1 refl in cc

module _ (d : DeviceRead) (cfg : DeviceFormSections) where
  password_absent : All (Other "ssh_password") (to_body cfg (form_of d))
  unfolding form_of
  password_absent =
      All-to_body (Other "ssh_password") cfg (form_of d)
        (refl, (refl, (refl, (refl, (refl, (refl, (refl, (refl, (refl, tt)))))))))
        (refl, (refl, (refl, (refl, tt)))) (refl, (refl, tt)) (refl, (refl, (refl, (refl, tt))))
        (refl, (refl, tt)) (λ e. (refl, (refl, tt))) (refl, tt)

  community_absent : cfg.show_snmp ≡ false → All (Other "snmp_community") (to_body cfg (form_of d))
  unfolding form_of
  community_absent hidden =
      All-to_body (Other "snmp_community") cfg (form_of d)
        (refl, (refl, (refl, (refl, (refl, (refl, (refl, (refl, (refl, tt)))))))))
        (refl, (refl, (refl, (refl, tt)))) (refl, (refl, tt)) (refl, (refl, (refl, (refl, tt))))
        (refl, (refl, tt)) (λ e. absurd (cc)) (refl, tt)

  community_sent :
      d.snmp_community ≡ none
      → cfg.show_snmp ≡ true
      → In ("snmp_community", null) (to_body cfg (form_of d))
  unfolding form_of to_body
  community_sent none_given shown = In-append_right _ (base_entries (form_of d)) _ (
      In-append_right _ (section cfg.show_rack_placement (rack_entries (form_of d))) _ (
        In-append_right _ (section cfg.show_power_physical (power_entries (form_of d))) _ (
          In-append_right _ (section cfg.show_lifecycle_dates (date_entries (form_of d))) _ (
            In-append_right _ (section cfg.show_management_ip (management_entries (form_of d))) _
              (rw shown (inl (λ i. ("snmp_community", or_null (text_of (none_given i))))))))))

-- The API never answers the community of a device, so that the form has none. Saving the device
-- unchanged sends an empty community exactly if its type shows SNMP, but sends no password.
pub to_body-credentials :
    (d : DeviceRead) (cfg : DeviceFormSections)
    → d.snmp_community ≡ none
    → (In ("snmp_community", null) (to_body cfg (form_of d)) ↔ (cfg.show_snmp ≡ true))
      × ((value : Value) → ¬ In ("ssh_password", value) (to_body cfg (form_of d)))
to_body-credentials d cfg none_given = (
  (
    λ m. elim (Bool-cases cfg.show_snmp) [
      | inl shown ↦ shown
      | inr hidden ↦ absurd (
          no_entry "snmp_community" null (to_body cfg (form_of d)) (community_absent d cfg hidden)
            m)
    ],
    community_sent d cfg none_given,
  ),
  λ value m. no_entry "ssh_password" value (to_body cfg (form_of d)) (password_absent d cfg) m,
)
