-- ===== src/Api/Routes/Pattern.antt =====
-- What a decorator such as `@router.get("/{rack_id}/devices", response_model=list[DeviceRead])` says
-- of a route, with the prefix that router.py includes the router under.
use datacenter_manager.Prelude.{ℕ, String, Option, List}
use datacenter_manager.Api.{Method, Shape}

pub data Segment : Type 0 where
  lit : String → Segment
  var : Segment

-- `max_size` is the limit on the parameter `size` of a route that has one.
pub record Route : Type 0 where
  pub method : Method
  pub pattern : List Segment
  pub response : Shape
  pub max_size : Option ℕ

abbrev pub route : Method → List Segment → Shape → Option ℕ → Route
route m p s n = record { method = m; pattern = p; response = s; max_size = n }
