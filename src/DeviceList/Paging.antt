-- ===== src/DeviceList/Paging.antt =====
-- What paging reaches, and where a deletion leaves it.
use datacenter_manager.Prelude.{
  ℕ, zero, suc, ◌+◌, ◌-◌, ◌*◌, ◌/◌, ◌≤◌, ◌<◌, ◌≡◌, ◌≢◌, ◌↔◌, ◌⊎◌, inl, inr, none, refl, false, leb,
  arith,
}
use datacenter_manager.DeviceList.{
  State, initial, ceil_div, max_ℕ, min_ℕ, total_pages, pagination, rendered, on_next, click_next,
  offset, rows, size,
}

unfoldable pub clicks : ℕ → ℕ → State
clicks total zero = initial
clicks total (suc n) = click_next total (clicks total n)

pub many_pages : (total : ℕ) → 50 < total → total_pages size total ≡ (total + 49) / 50
unfolding total_pages max_ℕ ceil_div
many_pages total h = ground arith

one_page : (total : ℕ) → total ≤ 50 → total_pages size total ≡ 1
unfolding total_pages max_ℕ ceil_div
one_page total h = ground arith

leb-over : (a b : ℕ) → b < a → leb a b ≡ false
leb-over a b h = ground arith

next_page :
    (total : ℕ) (s : State)
    → 50 < total
    → s.page < (total + 49) / 50
    → (click_next total s).page ≡ s.page + 1
unfolding click_next on_next rendered pagination
next_page total s d h =
    let e = many_pages total d in
    rw
      (
        leb-over (total_pages size total) 1 (omega arith),
        leb-over (total_pages size total) s.page (omega arith),
      )
      refl

pub clicks_page : (total n : ℕ) → n * 50 < total → (clicks total n).page ≡ n + 1
unfolding clicks
clicks_page total zero h = refl
clicks_page total (suc n) h =
    let e = clicks_page total n (omega arith) in
    let s = next_page total (clicks total n) (omega arith) (omega arith) in omega arith

-- For each position below the total, as many clicks on the right button as whole pages lie before it lead
-- to a page that is asked for from at or before that position, and whose rows, as many as the server
-- answers, reach beyond it. Which row stands at a position is for each answer the server's to say.
pub clicks-shows :
    (total i : ℕ)
    → i < total
    → let s = clicks total (i / 50) in (offset s ≤ i) × (i < offset s + rows s total)
unfolding offset rows min_ℕ
clicks-shows total i h = let e = clicks_page total (i / 50) (omega arith) in ground arith

few_rows : (s : State) (total : ℕ) → total ≤ 50 → rendered s total ≡ none
unfolding rendered pagination
few_rows s total h = let e = one_page total h in rw e refl

many_rows : (s : State) (total : ℕ) → 50 < total → rendered s total ≢ none
unfolding rendered pagination
many_rows s total h =
    let e = many_pages total h in rw (leb-over (total_pages size total) 1 (omega arith)) (λ n. cc)

le_or_lt : (a b : ℕ) → (a ≤ b) ⊎ (b < a)
le_or_lt a b = omega arith

rendered-none_iff : (s : State) (total : ℕ) → (rendered s total ≡ none) ↔ (total ≤ 50)
rendered-none_iff s total = (
  λ n. elim (le_or_lt total 50) [ inl le ↦ le | inr lt ↦ absurd (many_rows s total lt n) ],
  few_rows s total,
)

rows-zero_iff : (s : State) (total : ℕ) → (rows s total ≡ 0) ↔ (total ≤ (s.page - 1) * 50)
unfolding rows min_ℕ offset
rows-zero_iff s total = ground arith

pages_bound :
    (total : ℕ) → (total_pages size total ≡ 1) ⊎ (total_pages size total ≡ (total + 49) / 50)
unfolding total_pages max_ℕ ceil_div
pages_bound total = ground arith

-- On a page that exists, deleting one of several devices leaves an empty table and no pager exactly
-- on the second page of 51 devices.
pub rows-stuck_iff :
    (s : State) (total : ℕ)
    → 1 ≤ s.page
    → s.page ≤ total_pages size total
    → 1 < total
    → ((rows s (total - 1) ≡ 0) × (rendered s (total - 1) ≡ none)) ↔ ((s.page ≡ 2) × (total ≡ 51))
rows-stuck_iff s total h k d =
    let b = pages_bound total in
    let z = rows-zero_iff s (total - 1) in
    let n = rendered-none_iff s (total - 1) in
    (
      λ p. let z' = z.0 p.0 in let n' = n.0 p.1 in omega arith,
      λ q. (z.1 (omega arith), n.1 (omega arith)),
    )
