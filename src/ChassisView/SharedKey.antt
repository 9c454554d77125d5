-- ===== src/ChassisView/SharedKey.antt =====
-- The two hooks share a key, and only one of them keeps the slots.
use datacenter_manager.Prelude.{
  String, ◌≡◌, ◌≢◌, refl, true, false, Option, some, List, [], ◌∷◌, map, any, any_intro, In,
  In-map_intro, str_eq, eq_iff, arith,
}
use datacenter_manager.Prelude.Int.{ℤ, eqb_ℤ_iff}
use datacenter_manager.Prelude.Numerals.{parse_int, is_blank}
use datacenter_manager.DeviceEditor.Save.{same_slot, Request, Answer}
use datacenter_manager.DeviceEditor.ChassisBlades.{
  handle_add_blade, handle_add_blade_taken, handle_add_blade_free,
}
use datacenter_manager.DeviceEditor.ChassisBlades as ChassisBlades
use datacenter_manager.ChassisView.{
  ServerBlade, CachedBlade, Key, Cache, key_eq, cached, answered, topology_key, devices_key,
  as_listed, with_detail, topology_fetched, devices_fetched, to_blade, dialog_blades,
}

key_eq_refl : (k : Key) → key_eq k k ≡ true
key_eq_refl [] = refl
key_eq_refl (a ∷ k) = let h = (eq_iff a a).1 refl in let t = key_eq_refl k in ground (arith, h, t)

cached-answered : (k : Key) (e : List CachedBlade) (c : Cache) → cached k (answered k e c) ≡ some e
unfolding cached answered
cached-answered k e c = rw (key_eq_refl k) refl

listed_blades :
    (chassis_id : String) (blades : List ServerBlade) (c : Cache)
    → dialog_blades chassis_id (topology_fetched chassis_id blades c)
      ≡ map to_blade (map as_listed blades)
unfolding dialog_blades topology_fetched topology_key devices_key
listed_blades chassis_id blades c =
    rw (cached-answered (devices_key chassis_id) (map as_listed blades) c) refl

detailed_blades :
    (chassis_id : String) (blades : List ServerBlade) (c : Cache)
    → dialog_blades chassis_id (devices_fetched chassis_id blades c)
      ≡ map to_blade (map with_detail blades)
unfolding dialog_blades devices_fetched
detailed_blades chassis_id blades c =
    rw (cached-answered (devices_key chassis_id) (map with_detail blades) c) refl

no_slots :
    (n : Option ℤ) (blades : List ServerBlade)
    → any (λ b. same_slot b.blade_slot n) (map to_blade (map as_listed blades)) ≡ false
no_slots n [] = refl
no_slots n (b ∷ bs) = let h = no_slots n bs in ground (arith, h)

taken_slot :
    (n : ℤ) (b : ServerBlade) (blades : List ServerBlade)
    → In b blades
    → b.blade_slot ≡ some n
    → any (λ b. same_slot b.blade_slot (some n)) (map to_blade (map with_detail blades)) ≡ true
taken_slot n b blades i e =
    let m = In-map_intro with_detail b blades i in
    let k = In-map_intro to_blade (with_detail b) (map with_detail blades) m in
    any_intro (λ b. same_slot b.blade_slot (some n)) (to_blade (with_detail b))
      (map to_blade (map with_detail blades)) k (rw e ((eqb_ℤ_iff n n).1 refl))

-- Both hooks keep their answer under the same key. If the one of api/devices.ts was answered last,
-- adding a blade to a slot that is taken sends nothing; if it was the one of api/topology.ts, whose
-- list has no slots, the dialog does not see that the slot is taken and sends its requests. A name and
-- a slot number are given.
pub dialog_blades-handle_add_blade :
    (send : Request → Answer) (chassis_id : String) (blades : List ServerBlade) (c : Cache)
    (s : ChassisBlades.State) (b : ServerBlade) (n : ℤ)
    → In b blades
    → b.blade_slot ≡ some n
    → parse_int s.blade_form.slot ≡ some n
    → is_blank s.blade_form.name ≡ false
    → str_eq s.blade_form.slot "" ≡ false
    → ((handle_add_blade send chassis_id
          (dialog_blades chassis_id (devices_fetched chassis_id blades c))
          s).1
        ≡ [])
      × ((handle_add_blade send chassis_id
            (dialog_blades chassis_id (topology_fetched chassis_id blades c))
            s).1
          ≢ [])
dialog_blades-handle_add_blade send chassis_id blades c s b n i at slot named given = (
  handle_add_blade_taken send chassis_id _ s named given
      (rw (detailed_blades chassis_id blades c, slot) (taken_slot n b blades i at)),
  handle_add_blade_free send chassis_id _ s named given
      (rw (listed_blades chassis_id blades c) (no_slots (parse_int s.blade_form.slot) blades)),
)
