-- ===== src/DeviceList.antt =====
-- frontend/src/components/common/Pagination.tsx and the list of frontend/src/pages/Devices.tsx that it
-- pages through, with the part of it that the server answers (backend/app/core/pagination.py,
-- offset). Rows are counted, not listed: row `i` is the i-th that the filters leave.
pub mod Paging
pub mod Requests
mod Tests
use datacenter_manager.Prelude.{
  ℕ, ◌+◌, ◌-◌, ◌*◌, ◌/◌, ◌≤◌, ◌<◌, String, Bool, Option, none, some, leb, ◌&&◌, if◌then◌else◌,
}

-- Math.ceil(total / size)
unfoldable pub ceil_div : ℕ → ℕ → ℕ
ceil_div total size = (total + (size - 1)) / size

unfoldable pub max_ℕ : ℕ → ℕ → ℕ
max_ℕ a b = if leb a b then b else a

unfoldable pub min_ℕ : ℕ → ℕ → ℕ
min_ℕ a b = if leb a b then a else b

unfoldable pub total_pages : ℕ → ℕ → ℕ
total_pages size total = max_ℕ 1 (ceil_div total size)

-- What the component renders: the rows "first–last of total", "page / pages", and its two buttons.
pub record Pager : Type 0 where
  pub first : ℕ
  pub last : ℕ
  pub pages : ℕ
  pub prev_disabled : Bool
  pub next_disabled : Bool

unfoldable pub pagination : ℕ → ℕ → ℕ → Option Pager
pagination page size total =
    if leb (total_pages size total) 1
    then none
    else some (record {
      first = (page - 1) * size + 1;
      last = min_ℕ (page * size) total;
      pages = total_pages size total;
      prev_disabled = leb page 1;
      next_disabled = leb (total_pages size total) page;
    })

-- A click on a button: nothing, if there is no pager or the button is disabled.
unfoldable pub on_prev : Option Pager → ℕ → ℕ
on_prev none page = page
on_prev (some g) page = if g.prev_disabled then page else page - 1

unfoldable pub on_next : Option Pager → ℕ → ℕ
on_next none page = page
on_next (some g) page = if g.next_disabled then page else page + 1

pub record State : Type 0 where
  pub page : ℕ
  pub type_filter : String

abbrev pub initial : State
initial = record { page = 1; type_filter = "" }

abbrev pub size : ℕ
size = 50

-- The pager under a table of which the server has `total` rows.
unfoldable pub rendered : State → ℕ → Option Pager
rendered s total = pagination s.page size total

unfoldable pub click_prev : ℕ → State → State
click_prev total s = record s { page = on_prev (rendered s total) s.page }

unfoldable pub click_next : ℕ → State → State
click_next total s = record s { page = on_next (rendered s total) s.page }

unfoldable pub set_type_filter : String → State → State
set_type_filter t s = record s { type_filter = t; page = 1 }

unfoldable pub offset : State → ℕ
offset s = (s.page - 1) * size

-- How many rows the table has: as many as the total exceeds `offset` by, at most `size`. Which they
-- are is left out: the server's query has an offset and a limit, but no order.
unfoldable pub rows : State → ℕ → ℕ
rows s total = min_ℕ size (total - offset s)

-- What the server's pages are asked for, and whether it does not refuse the request with 422.
pub record PageParams : Type 0 where
  pub page : ℕ
  pub size : ℕ

unfoldable pub is_accepted : PageParams → Bool
is_accepted p = leb 1 p.page && (leb 1 p.size && leb p.size 100)

-- Of the devices in the table; and of all racks, corridors, rooms and chassis, from which the names of
-- racks, the breadcrumb and the choices of the dialog come.
unfoldable pub list_params : State → PageParams
list_params s = record { page = s.page; size = size }

abbrev pub lookup_params : PageParams
lookup_params = record { page = 1; size = 200 }
