-- ===== src/TreeView/Search.antt =====
-- `includes` is the occurrence of one text in another.
use Prim.Native.Char.{Char}
use Prim.Native.String.{String, [], ◌∷◌, ◌++◌}
use Prim.Native.String.append
use datacenter_manager.Prelude.{◌≡◌, refl, sym, ap, ◌∙◌, ◌↔◌, inl, inr, true, Bool-cases, arith}
use text.Mathlib.Text.{starts_with}
use text.Mathlib.TextEquality.{starts_with_iff}
use datacenter_manager.TreeView.Matching.{includes}

-- `t` occurs in `s`.
abbrev pub Occurs : String → String → Type 0
Occurs t s = (a : String) × (b : String) × (a ++ (t ++ b) ≡ s)

includes-Occurs : (s t : String) → includes s t ≡ true → Occurs t s
unfolding includes
includes-Occurs [] t h = let (u, e) = (starts_with_iff [] t).0 h in ([], u, append.nil (t ++ u) ∙ e)
includes-Occurs (c ∷ s) t h = elim (Bool-cases (starts_with (c ∷ s) t)) [
  | inl here ↦ let (u, e) = (starts_with_iff (c ∷ s) t).0 here in ([], u, append.nil (t ++ u) ∙ e)
  | inr later ↦
      let (a, b, e) = includes-Occurs s t (rw later at h) in
      (c ∷ a, b, append.cons c a (t ++ b) ∙ ap (λ x. c ∷ x) e)
]

includes_here : (s t : String) → starts_with s t ≡ true → includes s t ≡ true
unfolding includes
includes_here [] t h = h
includes_here (c ∷ s) t h = rw h refl

includes_later : (c : Char) (s t : String) → includes s t ≡ true → includes (c ∷ s) t ≡ true
unfolding includes
includes_later c s t h = ground arith

Occurs-includes : (a t b : String) → includes (a ++ (t ++ b)) t ≡ true
Occurs-includes [] t b =
    ap (λ s. includes s t) (append.nil (t ++ b))
    ∙ includes_here (t ++ b) t ((starts_with_iff (t ++ b) t).1 (b, refl))
Occurs-includes (c ∷ a) t b =
    ap (λ s. includes s t) (append.cons c a (t ++ b))
    ∙ includes_later c (a ++ (t ++ b)) t (Occurs-includes a t b)

pub includes_iff : (s t : String) → (includes s t ≡ true) ↔ Occurs t s
includes_iff s t =
    (includes-Occurs s t, λ (a, b, e). ap (λ x. includes x t) (sym e) ∙ Occurs-includes a t b)
