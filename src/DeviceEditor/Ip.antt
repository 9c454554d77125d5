-- ===== src/DeviceEditor/Ip.antt =====
-- frontend/src/pages/Devices.tsx: the pattern that a management address is checked with.
use Prim.Native.Char.{code}
use Prim.Native.String.{String, [], ◌∷◌}
use datacenter_manager.Prelude.{
  ℕ, zero, suc, Bool, true, false, ◌&&◌, ◌||◌, if◌then◌else◌, leb, ltb, ◌==◌,
}

-- IP_RE: four groups of one to three digits, or hexadecimal digits and colons with a colon after the
-- first character.
abbrev is_decimal : ℕ → Bool
is_decimal c = leb 48 c && leb c 57

abbrev is_hex : ℕ → Bool
is_hex c = is_decimal c || (leb 65 c && leb c 70) || (leb 97 c && leb c 102)

-- `dots` more dots to come, after `digits` digits of a group.
is_ipv4 : ℕ → ℕ → String → Bool
is_ipv4 dots digits [] = (dots == 0) && ltb 0 digits && leb digits 3
is_ipv4 zero digits (c ∷ s) = let rest = is_ipv4 zero (suc digits) s in is_decimal (code c) && rest
is_ipv4 (suc dots) digits (c ∷ s) =
    let same = is_ipv4 (suc dots) (suc digits) s in
    let after = is_ipv4 dots 0 s in
    if is_decimal (code c) then same else (code c == 46) && ltb 0 digits && leb digits 3 && after

all_ipv6 : String → Bool
all_ipv6 [] = true
all_ipv6 (c ∷ s) = (is_hex (code c) || (code c == 58)) && all_ipv6 s

has_colon : String → Bool
has_colon [] = false
has_colon (c ∷ s) = (code c == 58) || has_colon s

abbrev drop_first : String → String
drop_first [] = []
drop_first (c ∷ s) = s

unfoldable pub is_ip : String → Bool
unfolding is_ipv4 all_ipv6 has_colon
is_ip s = is_ipv4 3 0 s || (all_ipv6 s && has_colon (drop_first s))
