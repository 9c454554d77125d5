-- ===== src/DeviceEditor/Entries.antt =====
-- Properties of every entry of a body.
use datacenter_manager.Prelude.{
  String, Bool, true, false, [], ◌∷◌, ◌++◌, In, inl, inr, ◌≡◌, refl, subst,
}
use datacenter_manager.DeviceForm.{DeviceFormSections}
use datacenter_manager.DeviceEditor.{FormData}
use datacenter_manager.DeviceEditor.Body.{
  Body, Value, section, to_body, base_entries, rack_entries, power_entries, date_entries,
  management_entries, snmp_entries, ssh_entries,
}

-- Every entry of a list satisfies `P`.
module _ (P : (String × Value) → Type 0) where
  abbrev pub All : Body → Type 0
  All [] = Unit {0}
  All (x ∷ xs) = P x × All xs

  pub All-In : (xs : Body) (a : String × Value) → All xs → In a xs → P a
  All-In [] a all m = absurd m
  All-In (x ∷ xs) a (p, all) (inl e) = subst P e p
  All-In (x ∷ xs) a (p, all) (inr m) = All-In xs a all m

  All-append : (xs ys : Body) → All xs → All ys → All (xs ++ ys)
  All-append [] ys p q = q
  All-append (x ∷ xs) ys (h, p) q = (h, All-append xs ys p q)

  All-section : (b : Bool) (xs : Body) → (b ≡ true → All xs) → All (section b xs)
  All-section true xs p = p refl
  All-section false xs p = tt

-- A property of every entry of a body, section by section.
module _ (P : (String × Value) → Type 0) (cfg : DeviceFormSections) (f : FormData) where
  pub All-to_body :
      All P (base_entries f)
      → All P (rack_entries f)
      → All P (power_entries f)
      → All P (date_entries f)
      → All P (management_entries f)
      → (cfg.show_snmp ≡ true → All P (snmp_entries f))
      → All P (ssh_entries f)
      → All P (to_body cfg f)
  unfolding to_body
  All-to_body base rack power date management snmp ssh = All-append P (base_entries f) _ base (
      All-append P (section cfg.show_rack_placement (rack_entries f)) _
        (All-section P cfg.show_rack_placement _ (λ e. rack))
        (All-append P (section cfg.show_power_physical (power_entries f)) _
          (All-section P cfg.show_power_physical _ (λ e. power))
          (All-append P (section cfg.show_lifecycle_dates (date_entries f)) _
            (All-section P cfg.show_lifecycle_dates _ (λ e. date))
            (All-append P (section cfg.show_management_ip (management_entries f)) _
              (All-section P cfg.show_management_ip _ (λ e. management))
              (All-append P (section cfg.show_snmp (snmp_entries f)) _
                (All-section P cfg.show_snmp _ snmp) (All-section P cfg.show_ssh _ (λ e. ssh)))))))
