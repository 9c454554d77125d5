-- ===== src/Prelude/Lists.antt =====
-- Lists measured and indexed by native numbers, under the library's names, and membership by
-- recursion, which the tactics take apart.
use Prim.Native.Nat.{ℕ, zero, suc}
use mathlib.Core.Path.{◌≡◌, refl, ap, sym, subst, ◌∙◌}
use mathlib.Core.Logic.{◌⊎◌, inl, inr}
use mathlib.Core.Bool.{Bool, true, false, ◌||◌}
use mathlib.Core.Option.{Option, none, some}
use mathlib.Core.List.{List, [], ◌∷◌, ◌++◌, map}
use native.Mathlib.Omega.{arith}
use Prim.Native.String.{String}
use text.Mathlib.Text.{◌==◌ as str_eq}
use text.Mathlib.TextEquality.{eq_iff}
use datacenter_manager.Prelude.Tests.{if◌then◌else◌, Bool-cases}

module _ {ℓ} {A : Type ℓ} where
  abbrev pub length : List A → ℕ
  length [] = 0
  length (x ∷ xs) = suc (length xs)

  -- `xs.filter(p)` with a Boolean test
  abbrev pub filter : (A → Bool) → List A → List A
  filter p [] = []
  filter p (x ∷ xs) = if p x then x ∷ filter p xs else filter p xs

  -- `xs.some(p)`
  abbrev pub any : (A → Bool) → List A → Bool
  any p [] = false
  any p (x ∷ xs) = p x || any p xs

  -- `xs.find(p)`
  abbrev pub find? : (A → Bool) → List A → Option A
  find? p [] = none
  find? p (x ∷ xs) = if p x then some x else find? p xs

  -- `xs.flatMap(f)`, and a loop that appends `f(x)` for each
  abbrev pub flat_map {κ} : {B : Type κ} → (A → List B) → List A → List B
  flat_map f [] = []
  flat_map f (x ∷ xs) = f x ++ flat_map f xs

  abbrev pub get_elem? : List A → ℕ → Option A
  get_elem? [] i = none
  get_elem? (x ∷ xs) zero = some x
  get_elem? (x ∷ xs) (suc i) = get_elem? xs i

  abbrev pub head? : List A → Option A
  head? [] = none
  head? (x ∷ xs) = some x

module _ {A : Type 0} where
  abbrev pub In : A → List A → Type 0
  In a [] = ⊥
  In a (x ∷ xs) = (x ≡ a) ⊎ In a xs

  pub In-filter : (p : A → Bool) (a : A) (xs : List A) → In a (filter p xs) → In a xs × (p a ≡ true)
  In-filter p a [] m = absurd m
  In-filter p a (x ∷ xs) m = elim (Bool-cases (p x)) [
    | inl keep ↦ elim (rw keep at m) [
      | inl e ↦ (inl e, ap p (sym e) ∙ keep)
      | inr later ↦ let r = In-filter p a xs later in (inr r.0, r.1)
    ]
    | inr skip ↦ let r = In-filter p a xs (rw skip at m) in (inr r.0, r.1)
  ]

  pub In-filter_intro :
      (p : A → Bool) (a : A) (xs : List A) → In a xs → p a ≡ true → In a (filter p xs)
  In-filter_intro p a [] m h = absurd m
  In-filter_intro p a (x ∷ xs) (inl e) h = let h' : p x ≡ true = ap p e ∙ h in rw h' (inl e)
  In-filter_intro p a (x ∷ xs) (inr m) h = elim (Bool-cases (p x)) [
    | inl keep ↦ rw keep (inr (In-filter_intro p a xs m h))
    | inr skip ↦ rw skip (In-filter_intro p a xs m h)
  ]

  pub any-eq-false : (p : A → Bool) (a : A) (xs : List A) → any p xs ≡ false → In a xs → p a ≡ false
  any-eq-false p a [] h m = absurd m
  any-eq-false p a (x ∷ xs) h (inl e) = let q : p x ≡ false = ground arith in ap p (sym e) ∙ q
  any-eq-false p a (x ∷ xs) h (inr m) = any-eq-false p a xs (ground arith) m

  pub any-eq-true :
      (p : A → Bool) (xs : List A) → any p xs ≡ true → (a : A) × In a xs × (p a ≡ true)
  any-eq-true p [] h = absurd (cc)
  any-eq-true p (x ∷ xs) h = elim (Bool-cases (p x)) [
    | inl here ↦ (x, inl refl, here)
    | inr no_here ↦ let (a, m, q) = any-eq-true p xs (rw no_here at h) in (a, inr m, q)
  ]

  pub any_intro : (p : A → Bool) (a : A) (xs : List A) → In a xs → p a ≡ true → any p xs ≡ true
  any_intro p a [] m h = absurd m
  any_intro p a (x ∷ xs) (inl e) h = let h' : p x ≡ true = ap p e ∙ h in rw h'
  any_intro p a (x ∷ xs) (inr m) h = ground (arith, any_intro p a xs m h)

  pub find?-some :
      (p : A → Bool) (a : A) (xs : List A) → find? p xs ≡ some a → In a xs × (p a ≡ true)
  find?-some p a [] h = absurd (cc)
  find?-some p a (x ∷ xs) h = elim (Bool-cases (p x)) [
    | inl here ↦ let e : x ≡ a = cc (rw here at h) in (inl e, ap p (sym e) ∙ here)
    | inr later ↦ let r = find?-some p a xs (rw later at h) in (inr r.0, r.1)
  ]

  pub In-append : (a : A) (xs ys : List A) → In a (xs ++ ys) → In a xs ⊎ In a ys
  In-append a [] ys m = inr m
  In-append a (x ∷ xs) ys (inl e) = inl (inl e)
  In-append a (x ∷ xs) ys (inr m) = elim (In-append a xs ys m) [
    | inl l ↦ inl (inr l)
    | inr r ↦ inr r
  ]

  pub In-append_left : (a : A) (xs ys : List A) → In a xs → In a (xs ++ ys)
  In-append_left a [] ys m = absurd m
  In-append_left a (x ∷ xs) ys (inl e) = inl e
  In-append_left a (x ∷ xs) ys (inr m) = inr (In-append_left a xs ys m)

  pub In-append_right : (a : A) (xs ys : List A) → In a ys → In a (xs ++ ys)
  In-append_right a [] ys m = m
  In-append_right a (x ∷ xs) ys m = inr (In-append_right a xs ys m)

module _ {A B : Type 0} where
  pub get_elem?-map :
      (i : ℕ) (f : A → B) (xs : List A) {a : A}
      → get_elem? xs i ≡ some a
      → get_elem? (map f xs) i ≡ some (f a)
  get_elem?-map i f [] e = absurd (cc)
  get_elem?-map zero f (x ∷ xs) e = let same : x ≡ _ = cc e in ap (λ y. some (f y)) same
  get_elem?-map (suc i) f (x ∷ xs) e = get_elem?-map i f xs e

  pub In-map : (f : A → B) (b : B) (xs : List A) → In b (map f xs) → (a : A) × In a xs × (f a ≡ b)
  In-map f b [] m = absurd m
  In-map f b (x ∷ xs) (inl e) = (x, inl refl, e)
  In-map f b (x ∷ xs) (inr m) = let (a, n, e) = In-map f b xs m in (a, inr n, e)

  pub In-map_intro : (f : A → B) (a : A) (xs : List A) → In a xs → In (f a) (map f xs)
  In-map_intro f a [] m = absurd m
  In-map_intro f a (x ∷ xs) (inl e) = inl (ap f e)
  In-map_intro f a (x ∷ xs) (inr m) = inr (In-map_intro f a xs m)

  pub In-flat_map :
      (f : A → List B) (b : B) (xs : List A) → In b (flat_map f xs) → (a : A) × In a xs × In b (f a)
  In-flat_map f b [] m = absurd m
  In-flat_map f b (x ∷ xs) m = elim (In-append b (f x) (flat_map f xs) m) [
    | inl l ↦ (x, inl refl, l)
    | inr r ↦ let (a, n, e) = In-flat_map f b xs r in (a, inr n, e)
  ]

  pub In-flat_map_intro :
      (f : A → List B) (a : A) (b : B) (xs : List A) → In a xs → In b (f a) → In b (flat_map f xs)
  In-flat_map_intro f a b [] n m = absurd n
  In-flat_map_intro f a b (x ∷ xs) (inl e) m =
      In-append_left b (f x) (flat_map f xs) (subst (λ y. In b (f y)) (sym e) m)
  In-flat_map_intro f a b (x ∷ xs) (inr n) m =
      In-append_right b (f x) (flat_map f xs) (In-flat_map_intro f a b xs n m)

-- The value of a key in an association list: an object's or a `Map`'s entries.
module _ {ℓ} {V : Type ℓ} where
  unfoldable pub lookup : String → List (String × V) → Option V
  lookup k [] = none
  lookup k ((j, v) ∷ m) = if str_eq j k then some v else lookup k m

module _ {V : Type 0} where
  pub In-lookup : (k : String) (v : V) (m : List (String × V)) → lookup k m ≡ some v → In (k, v) m
  unfolding lookup
  In-lookup k v [] e = absurd (cc)
  In-lookup k v ((j, w) ∷ m) e = elim (Bool-cases (str_eq j k)) [
    | inl here ↦
        let p = (eq_iff j k).0 here in let q : w ≡ v = cc (rw here at e) in inl (λ i. (p i, q i))
    | inr later ↦ inr (In-lookup k v m (rw later at e))
  ]

  -- `m.set(k, v)` of a `Map`: in place if the key is there, else at the end.
  unfoldable pub set_key : String → V → List (String × V) → List (String × V)
  set_key k v [] = (k, v) ∷ []
  set_key k v ((j, w) ∷ m) =
      let rest = set_key k v m in if str_eq j k then (j, v) ∷ m else (j, w) ∷ rest

  pub lookup-set_key :
      (k j : String) (v : V) (m : List (String × V))
      → lookup j (set_key k v m) ≡ (if str_eq k j then some v else lookup j m)
  unfolding lookup set_key
  lookup-set_key k j v [] = refl
  lookup-set_key k j v ((i, w) ∷ m) =
      ground (arith, eq_iff k j, eq_iff i k, eq_iff i j, lookup-set_key k j v m)
