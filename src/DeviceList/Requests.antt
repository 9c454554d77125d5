-- ===== src/DeviceList/Requests.antt =====
-- Which of the page's requests the server accepts.
use datacenter_manager.Prelude.{
  ℕ, ◌≤◌, String, Option, none, some, ◌≡◌, inl, inr, true, false, refl, leb, Bool-cases, arith,
}
use datacenter_manager.DeviceList.{
  State, Pager, initial, click_prev, click_next, set_type_filter, on_prev, on_next, rendered,
  pagination, is_accepted, list_params, total_pages, size, lookup_params,
}

-- A click on a button or on the filter, whatever the number of rows is by then.
pub data Step : State → State → Type 0 where
  prev : {s : State} (total : ℕ) → Step s (click_prev total s)
  next : {s : State} (total : ℕ) → Step s (click_next total s)
  filter : {s : State} (t : String) → Step s (set_type_filter t s)

pub data Reach : State → Type 0 where
  start : Reach initial
  step : {s s' : State} → Reach s → Step s s' → Reach s'

click_prev-pos : (s : State) (total : ℕ) → 1 ≤ s.page → 1 ≤ (click_prev total s).page
unfolding click_prev rendered pagination on_prev
click_prev-pos s total h = elim (Bool-cases (leb (total_pages size total) 1)) [
  | inl e ↦ rw e h
  | inr e ↦ rw e (ground arith)
]

on_next-pos : (g : Option Pager) (p : ℕ) → 1 ≤ p → 1 ≤ on_next g p
unfolding on_next
on_next-pos none p h = h
on_next-pos (some g) p h = ground arith

Step-pos : {s s' : State} → Step s s' → 1 ≤ s.page → 1 ≤ s'.page
unfolding click_next set_type_filter
Step-pos (prev {s} total) h = click_prev-pos s total h
Step-pos (next {s} total) h = on_next-pos (rendered s total) s.page h
Step-pos (filter t) h = omega arith

pub Reach-pos : {s : State} → Reach s → 1 ≤ s.page
Reach-pos start = omega arith
Reach-pos (step r t) = Step-pos t (Reach-pos r)

-- In every state that the buttons and the filter reach, the server accepts the request for the table,
-- and it refuses those for the racks, corridors, rooms and chassis.
pub Reach-is_accepted :
    (s : State)
    → Reach s
    → (is_accepted (list_params s) ≡ true) × (is_accepted lookup_params ≡ false)
unfolding is_accepted list_params
Reach-is_accepted s r = let h = Reach-pos r in (ground arith, refl)
