-- ===== src/TreeView/Sets.antt =====
-- A JavaScript `Set` of strings: what `has`, `add` and `delete` do to its values.
use datacenter_manager.Prelude.{
  String, ◌≡◌, refl, sym, subst, ◌⊎◌, inl, inr, true, not, ◌&&◌, ◌||◌, if◌then◌else◌, List, [], ◌∷◌,
  ◌++◌, str_eq, eq_iff, arith, Bool-cases, In, any-eq-true, any_intro, In-append, In-append_left,
  In-append_right,
}
use datacenter_manager.TreeView.{has, add, delete, toggle}

pub has→In : (id : String) (set : List String) → has id set ≡ true → In id set
has→In id set h =
    let (x, m, e) = any-eq-true (str_eq id) set h in
    subst (λ y. In y set) (sym ((eq_iff id x).0 e)) m

pub In→has : (id : String) (set : List String) → In id set → has id set ≡ true
In→has id set m = any_intro (str_eq id) id set m ((eq_iff id id).1 refl)

pub In-add_new : (id : String) (set : List String) → In id (add id set)
In-add_new id set = elim (Bool-cases (has id set)) [
  | inl old ↦ rw old (has→In id set old)
  | inr new ↦ rw new (In-append_right id set (id ∷ []) (inl refl))
]

pub In-add_old : (j id : String) (set : List String) → In j set → In j (add id set)
In-add_old j id set m = elim (Bool-cases (has id set)) [
  | inl old ↦ rw old m
  | inr new ↦ rw new (In-append_left j set (id ∷ []) m)
]

pub In-add : (j id : String) (set : List String) → In j (add id set) → In j set ⊎ (id ≡ j)
In-add j id set m = elim (Bool-cases (has id set)) [
  | inl old ↦ inl (rw old at m)
  | inr new ↦ elim (In-append j set (id ∷ []) (rw new at m)) [
    | inl l ↦ inl l
    | inr (inl e) ↦ inr e
    | inr (inr none_left) ↦ absurd none_left
  ]
]

has-append : (j : String) (xs ys : List String) → has j (xs ++ ys) ≡ (has j xs || has j ys)
has-append j [] ys = refl
has-append j (x ∷ xs) ys = let h = has-append j xs ys in ground (arith, h)

has-delete :
    (j id : String) (set : List String) → has j (delete id set) ≡ (not (str_eq id j) && has j set)
has-delete j id [] = ground arith
has-delete j id (x ∷ xs) = ground (arith, eq_iff id x, eq_iff j x, eq_iff id j, has-delete j id xs)

has-add : (j id : String) (set : List String) → has j (add id set) ≡ (has j set || str_eq id j)
has-add j id set = elim (Bool-cases (has id set)) [
  | inl old ↦
      rw old (ground (arith, eq_iff id j, λ (e : id ≡ j). subst (λ i. has i set ≡ true) e old))
  | inr new ↦ rw new (ground (arith, has-append j set (id ∷ []), eq_iff j id, eq_iff id j))
]

has-toggle :
    (id j : String) (set : List String)
    → has j (toggle id set) ≡ (if str_eq id j then not (has j set) else has j set)
unfolding toggle
has-toggle id j set = elim (Bool-cases (str_eq id j)) [
  | inl same ↦
      let e = (eq_iff id j).0 same in
      let n = subst (λ i. has i set ≡ has j set) (sym e) refl in
      let a = has-add j id set in let d = has-delete j id set in ground (arith, same, n, a, d)
  | inr other ↦
      let a = has-add j id set in let d = has-delete j id set in ground (arith, other, a, d)
]

-- A click on a row's arrow changes whether that row is expanded and no other, and a second click
-- undoes it.
pub toggle-lem :
    (id j : String) (expanded : List String)
    → (has j (toggle id expanded) ≡ (if str_eq id j then not (has j expanded) else has j expanded))
      × (has j (toggle id (toggle id expanded)) ≡ has j expanded)
toggle-lem id j expanded =
    let once = has-toggle id j expanded in
    let twice = has-toggle id j (toggle id expanded) in (once, ground (arith, once, twice))
