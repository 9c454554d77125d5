-- ===== src/TreeView/Matching.antt =====
-- frontend/src/pages/TreeView.tsx: the tests of the search box. `lower` is `toLowerCase`.
use Prim.Native.String.{String, [], ◌∷◌}
use datacenter_manager.Prelude.{Bool, true, false, ◌&&◌, ◌||◌}
use text.Mathlib.Text.{starts_with}

-- `s.includes(t)`
unfoldable pub includes : String → String → Bool
includes [] t = starts_with [] t
includes (c ∷ s) t = starts_with (c ∷ s) t || includes s t

-- `!!s`
abbrev pub is_nonempty : String → Bool
is_nonempty [] = false
is_nonempty (c ∷ s) = true

unfoldable pub is_match : (String → String) → String → String → Bool
is_match lower search name = is_nonempty search && includes (lower name) (lower search)
