-- ===== src/DeviceList/Tests.antt =====
-- Paging through 120 devices, and the 51st device deleted.
use datacenter_manager.Prelude.{ℕ, ◌+◌, ◌≤◌, ◌<◌, ◌≡◌, ◌↔◌, true, false, none, some, refl, arith}
use datacenter_manager.DeviceList.{
  State, initial, total_pages, ceil_div, max_ℕ, pagination, min_ℕ, rendered, offset, rows, size,
  click_next, is_accepted, list_params, lookup_params,
}
use datacenter_manager.DeviceList.Requests.{start, step, next, Reach-is_accepted}
use datacenter_manager.DeviceList.Paging.{clicks, clicks-shows, rows-stuck_iff}

third_page :
    pagination 3 size 120
    ≡ some
        (record { first = 101; last = 120; pages = 3; prev_disabled = false; next_disabled = true })
unfolding pagination total_pages max_ℕ ceil_div min_ℕ
third_page = refl

abbrev second_page : State
second_page = record initial { page = 2 }

clicks-shows_example :
    (offset (clicks 120 2) ≤ 110) × (110 < offset (clicks 120 2) + rows (clicks 120 2) 120)
clicks-shows_example = clicks-shows 120 110 (omega arith)

two_pages : 2 ≤ total_pages size 51
unfolding total_pages max_ℕ ceil_div
two_pages = omega arith

rows-stuck_iff_example :
    ((rows second_page 50 ≡ 0) × (rendered second_page 50 ≡ none))
    ↔ ((second_page.page ≡ 2) × (◌≡◌ {A = ℕ} 51 51))
rows-stuck_iff_example = rows-stuck_iff second_page 51 (omega arith) two_pages (omega arith)

Reach-is_accepted_example :
    (is_accepted (list_params (click_next 120 initial)) ≡ true)
    × (is_accepted lookup_params ≡ false)
Reach-is_accepted_example = Reach-is_accepted (click_next 120 initial) (step start (next 120))
