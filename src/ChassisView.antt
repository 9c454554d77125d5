-- ===== src/ChassisView.antt =====
-- The blades of a chassis in the query cache. frontend/src/api/topology.ts and
-- frontend/src/api/devices.ts each have a hook useChassisBlades; components/topology/physical has
-- ChassisDiagram.tsx, which uses the first, and AddBladeModal.tsx, which it opens. What the server
-- holds is a parameter: the blades of a chassis with their slots.
pub mod SharedKey
mod Tests
use datacenter_manager.Prelude.{
  ℕ, suc, ◌+◌, String, Bool, true, false, ◌&&◌, Option, none, some, List, [], ◌∷◌, map, length,
  str_eq, if◌then◌else◌,
}
use datacenter_manager.Prelude.Int.{ℤ, pos}
use datacenter_manager.DeviceEditor.Body.{Body, text, number}
use datacenter_manager.DeviceEditor.Save.{Blade, Request, create, put_server, Answer, ok, failed}

pub record ServerBlade : Type 0 where
  pub id : String
  pub name : String
  pub blade_slot : Option ℤ

-- A blade as the cache holds it. `server_detail` is absent where the API's list is kept as it is.
pub record CachedBlade : Type 0 where
  pub id : String
  pub name : String
  pub server_detail : Option (Option ℤ)

abbrev pub Key : Type 0
Key = List String

abbrev pub Cache : Type 0
Cache = List (Key × List CachedBlade)

abbrev pub key_eq : Key → Key → Bool
key_eq [] [] = true
key_eq [] (b ∷ bs) = false
key_eq (a ∷ j) [] = false
key_eq (a ∷ j) (b ∷ k) = str_eq a b && key_eq j k

-- What a query of this key reads, and what is there after its answer.
unfoldable pub cached : Key → Cache → Option (List CachedBlade)
cached k [] = none
cached k ((j, e) ∷ c) = let rest = cached k c in if key_eq j k then some e else rest

unfoldable pub answered : Key → List CachedBlade → Cache → Cache
answered k e c = (k, e) ∷ c

-- api/topology.ts
unfoldable pub topology_key : String → Key
topology_key chassis_id = "devices" ∷ "chassis-blades" ∷ chassis_id ∷ []

abbrev pub as_listed : ServerBlade → CachedBlade
as_listed b = record { id = b.id; name = b.name; server_detail = none }

unfoldable pub topology_fetched : String → List ServerBlade → Cache → Cache
topology_fetched chassis_id blades c = answered (topology_key chassis_id) (map as_listed blades) c

-- api/devices.ts: the detail of each blade is fetched, too
unfoldable pub devices_key : String → Key
devices_key chassis_id = "devices" ∷ "chassis-blades" ∷ chassis_id ∷ []

abbrev pub with_detail : ServerBlade → CachedBlade
with_detail b = record { id = b.id; name = b.name; server_detail = some b.blade_slot }

unfoldable pub devices_fetched : String → List ServerBlade → Cache → Cache
devices_fetched chassis_id blades c = answered (devices_key chassis_id) (map with_detail blades) c

-- `b.server_detail?.blade_slot`
abbrev pub slot_of : Option (Option ℤ) → Option ℤ
slot_of none = none
slot_of (some s) = s

abbrev pub to_blade : CachedBlade → Blade
to_blade b = record { id = b.id; blade_slot = slot_of b.server_detail }

abbrev pub blades_in : Option (List CachedBlade) → List Blade
blades_in none = []
blades_in (some bs) = map to_blade bs

-- pages/Devices.tsx: the `blades` of the dialog, as its checks read them
unfoldable pub dialog_blades : String → Cache → List Blade
dialog_blades chassis_id c = blades_in (cached (devices_key chassis_id) c)

-- ChassisDiagram: the slot that the dialog is opened with
unfoldable pub next_slot : Option (List CachedBlade) → ℤ
next_slot none = pos 1
next_slot (some bs) = pos (length bs + 1)

abbrev pub cards_from : ℕ → List CachedBlade → List (ℕ × String)
cards_from i [] = []
cards_from i (b ∷ bs) = (i + 1, b.name) ∷ cards_from (suc i) bs

-- The cards of the diagram: the number shown as the slot, and the name.
abbrev pub cards : List CachedBlade → List (ℕ × String)
cards bs = cards_from 0 bs

-- AddBladeModal; `error` is that of the first request's mutation.
pub record State : Type 0 where
  pub is_open : Bool
  pub name : String
  pub slot : ℤ
  pub error : Bool

abbrev pub opened : ℤ → State
opened slot = record { is_open = true; name = ""; slot = slot; error = false }

abbrev pub blade_body : State → Body
blade_body s =
    ("name", text s.name) ∷ ("device_type", text "blade") ∷ ("status", text "active") ∷ []

abbrev pub slot_body : String → State → Body
slot_body chassis_id s = ("blade_chassis_id", text chassis_id) ∷ ("blade_slot", number s.slot) ∷ []

module _ (send : Request → Answer) (chassis_id : String) where
  abbrev pub put_answered : Answer → State → State
  put_answered (ok id) s = record s { is_open = false }
  put_answered (failed d) s = s

  abbrev pub created : Answer → State → State × List Request
  created (failed d) s = (record s { error = true }, create (blade_body s) ∷ [])
  created (ok id) s =
      let put = put_server id (slot_body chassis_id s) in
      (put_answered (send put) (record s { error = false }), create (blade_body s) ∷ put ∷ [])

  unfoldable pub handle_submit : State → State × List Request
  handle_submit s = created (send (create (blade_body s))) s
