-- ===== src/TreeView/Badge.antt =====
-- frontend/src/pages/TreeView.tsx: the badge of a status: its text and the colour of its classes.
use Prim.Native.Char.{code, char}
use Prim.Native.String.{String, [], ◌∷◌}
use datacenter_manager.Prelude.{Option, none, some, str_eq, ◌||◌, ◌==◌, if◌then◌else◌}

-- `s.replace(/_/g, " ")`
unfoldable pub spaced : String → String
spaced [] = []
spaced (c ∷ s) = (if code c == 95 then char 32 tt else c) ∷ spaced s

-- STATUS_COLORS, whose classes are of one colour each; a status that it lacks is gray
unfoldable pub status_color : String → String
status_color s =
    if str_eq s "active" || str_eq s "up" || str_eq s "powered_on"
    then "emerald"
    else (if str_eq s "maintenance" || str_eq s "suspended"
        then "amber"
        else (if str_eq s "reserved"
            then "blue"
            else (if str_eq s "decommissioned" || str_eq s "down" then "red" else "gray")))

pub record Badge : Type 0 where
  pub color : String
  pub text : String

unfoldable pub status_badge : Option String → Option Badge
status_badge none = none
status_badge (some []) = none
status_badge (some (c ∷ s)) = some (record { color = status_color (c ∷ s); text = spaced (c ∷ s) })
