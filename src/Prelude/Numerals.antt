-- ===== src/Prelude/Numerals.antt =====
-- `String(n)` of an integer, and `parseInt` on what a number field of a form holds: an optional
-- minus and digits, and maybe a fraction or an exponent, where it stops. `none` is NaN. Numbers are
-- exact, as JavaScript's are up to 2 ^ 53.
use Prim.Native.Char.{Char, char, code}
use Prim.Native.Nat.{ℕ, zero, suc, ◌+◌, ◌-◌, ◌*◌, ◌/◌, ◌%◌, ◌≤◌, ◌<◌}
use Prim.Native.String.{String, [], ◌∷◌}
use mathlib.Core.Path.{◌≡◌, refl, sym, ap, ◌∙◌}
use mathlib.Core.Logic.{inl, inr}
use mathlib.Core.Bool.{Bool, true, false, ◌&&◌, ◌||◌}
use mathlib.Core.Option.{Option, none, some}
use native.Mathlib.Omega.{arith}
use datacenter_manager.Prelude.Tests.{ltb, leb, ◌==◌, if◌then◌else◌, Bool-cases}
use datacenter_manager.Prelude.Int.{ℤ, negsuc, pos}

abbrev digit_char : ℕ → Char
digit_char zero = char 48 tt
digit_char (suc zero) = char 49 tt
digit_char (suc (suc zero)) = char 50 tt
digit_char (suc (suc (suc zero))) = char 51 tt
digit_char (suc (suc (suc (suc zero)))) = char 52 tt
digit_char (suc (suc (suc (suc (suc zero))))) = char 53 tt
digit_char (suc (suc (suc (suc (suc (suc zero)))))) = char 54 tt
digit_char (suc (suc (suc (suc (suc (suc (suc zero))))))) = char 55 tt
digit_char (suc (suc (suc (suc (suc (suc (suc (suc zero)))))))) = char 56 tt
digit_char _ = char 57 tt

-- The digits of `n` before the text `rest`; fuel `n` is enough.
digits_before : ℕ → ℕ → String → String
digits_before zero n rest = digit_char n ∷ rest
digits_before (suc fuel) n rest =
    if ltb n 10
    then digit_char n ∷ rest
    else digits_before fuel (n / 10) (digit_char (n % 10) ∷ rest)

unfoldable pub show_int : ℤ → String
unfolding digits_before
show_int (pos n) = digits_before n n []
show_int (negsuc n) = char 45 tt ∷ digits_before (suc n) (suc n) []

-- The digits from here on, after those that make `n`.
read_digits : ℕ → String → ℕ
read_digits n [] = n
read_digits n (c ∷ s) =
    let rest = read_digits (n * 10 + (code c - 48)) s in
    if leb 48 (code c) && leb (code c) 57 then rest else n

abbrev is_digit : Char → Bool
is_digit c = leb 48 (code c) && leb (code c) 57

unsigned : String → Option ℕ
unfolding read_digits
unsigned [] = none
unsigned (c ∷ s) = if is_digit c then some (read_digits 0 (c ∷ s)) else none

abbrev negated : Option ℕ → Option ℤ
negated none = none
negated (some zero) = some (pos 0)
negated (some (suc n)) = some (negsuc n)

abbrev plain : Option ℕ → Option ℤ
plain none = none
plain (some n) = some (pos n)

unfoldable pub parse_int : String → Option ℤ
unfolding unsigned
parse_int [] = none
parse_int (c ∷ s) = if code c == 45 then negated (unsigned s) else plain (unsigned (c ∷ s))

-- `s.trim() === ""`
abbrev is_white : ℕ → Bool
is_white c =
    (leb 9 c && leb c 13)
    || (c == 32)
    || (c == 160)
    || (c == 5760)
    || (leb 8192 c && leb c 8202)
    || (c == 8232)
    || (c == 8233)
    || (c == 8239)
    || (c == 8287)
    || (c == 12288)
    || (c == 65279)

unfoldable pub is_blank : String → Bool
is_blank [] = true
is_blank (c ∷ s) = is_white (code c) && is_blank s

digit_code : (d : ℕ) → d < 10 → code (digit_char d) ≡ 48 + d
digit_code zero h = refl
digit_code (suc zero) h = refl
digit_code (suc (suc zero)) h = refl
digit_code (suc (suc (suc zero))) h = refl
digit_code (suc (suc (suc (suc zero)))) h = refl
digit_code (suc (suc (suc (suc (suc zero))))) h = refl
digit_code (suc (suc (suc (suc (suc (suc zero)))))) h = refl
digit_code (suc (suc (suc (suc (suc (suc (suc zero))))))) h = refl
digit_code (suc (suc (suc (suc (suc (suc (suc (suc zero)))))))) h = refl
digit_code (suc (suc (suc (suc (suc (suc (suc (suc (suc zero))))))))) h = refl
digit_code _ h = absurd (omega arith)

digit_is_digit : (d : ℕ) → d < 10 → is_digit (digit_char d) ≡ true
digit_is_digit d h = let e = digit_code d h in ground arith

read_digit :
    (d m : ℕ) (rest : String)
    → d < 10
    → read_digits m (digit_char d ∷ rest) ≡ read_digits (m * 10 + d) rest
unfolding read_digits
read_digit d m rest h =
    let e : m * 10 + (code (digit_char d) - 48) ≡ m * 10 + d =
      let c = digit_code d h in omega arith in
    rw (digit_is_digit d h) (ap (λ k. read_digits k rest) e)

-- Reading the digits of `n`, and the text after them.
read_digits-digits_before :
    (fuel n : ℕ) (rest : String)
    → n ≤ fuel
    → read_digits 0 (digits_before fuel n rest) ≡ read_digits n rest
unfolding digits_before
read_digits-digits_before zero n rest h =
    read_digit n 0 rest (omega arith) ∙ ap (λ k. read_digits k rest) (omega arith)
read_digits-digits_before (suc fuel) n rest h = elim (Bool-cases (ltb n 10)) [
  | inl one ↦
      rw one (read_digit n 0 rest (ground arith) ∙ ap (λ k. read_digits k rest) (omega arith))
  | inr more ↦
      let small : n / 10 ≤ fuel = ground arith in
      rw more (
        read_digits-digits_before fuel (n / 10) (digit_char (n % 10) ∷ rest) small
        ∙ read_digit (n % 10) (n / 10) rest (omega arith)
        ∙ ap (λ k. read_digits k rest) (omega arith))
]

begins :
    (fuel n : ℕ) (rest : String)
    → n ≤ fuel
    → (c : Char) × ((s : String) × (digits_before fuel n rest ≡ c ∷ s)) × (is_digit c ≡ true)
unfolding digits_before
begins zero n rest h = (digit_char n, (rest, refl), digit_is_digit n (omega arith))
begins (suc fuel) n rest h = elim (Bool-cases (ltb n 10)) [
  | inl one ↦ (digit_char n, (rest, rw one refl), digit_is_digit n (ground arith))
  | inr more ↦
      let small : n / 10 ≤ fuel = ground arith in
      let (c, (s, e), d) = begins fuel (n / 10) (digit_char (n % 10) ∷ rest) small in
      (c, (s, rw more e), d)
]

unsigned-some :
    (c : Char) (s : String) → is_digit c ≡ true → unsigned (c ∷ s) ≡ some (read_digits 0 (c ∷ s))
unfolding unsigned
unsigned-some c s d = rw d refl

read_digits_end : (n : ℕ) → read_digits n [] ≡ n
unfolding read_digits
read_digits_end n = refl

unsigned-digits : (n : ℕ) → unsigned (digits_before n n []) ≡ some n
unsigned-digits n =
    let (c, (s, e), d) = begins n n [] (omega arith) in
    let r = read_digits-digits_before n n [] (omega arith) in
    ap unsigned e
    ∙ unsigned-some c s d
    ∙ ap some (ap (read_digits 0) (sym e) ∙ r ∙ read_digits_end n)

-- `parseInt` reads back what `String` writes of an integer.
pub parse_int-show_int : (z : ℤ) → parse_int (show_int z) ≡ some z
unfolding parse_int show_int
parse_int-show_int (pos n) =
    let (c, (s, e), d) = begins n n [] (omega arith) in
    let u = unsigned-digits n in
    let no_minus : (code c == 45) ≡ false = ground arith in
    rw e (rw no_minus (ap plain (rw e at u)))
parse_int-show_int (negsuc n) = rw (unsigned-digits (suc n)) refl
