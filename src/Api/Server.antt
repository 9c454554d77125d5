-- ===== src/Api/Server.antt =====
-- Which route a request is for, and what the code relies on of the framework that serves the routes.
use datacenter_manager.Prelude.{
  ℕ, String, Bool, true, false, Option, none, some, List, [], ◌∷◌, ◌≡◌, ◌<◌, ◌&&◌, ◌==◌, str_eq,
  any, find?, lookup,
}
use datacenter_manager.Api.{
  Method, get, post, put, patch, delete, Shape, Request, ParamValue, text, number, flag,
}
use datacenter_manager.Api.Routes.{api_router}
use datacenter_manager.Api.Routes.Pattern.{Segment, lit, var, Route}

-- Each variable of a path stands for one segment.
abbrev pub fits : List Segment → List String → Bool
fits [] [] = true
fits [] (x ∷ xs) = false
fits (s ∷ ss) [] = false
fits (lit s ∷ ss) (x ∷ xs) = str_eq s x && fits ss xs
fits (var ∷ ss) (x ∷ xs) = fits ss xs

abbrev pub method_number : Method → ℕ
method_number get = 0
method_number post = 1
method_number put = 2
method_number patch = 3
method_number delete = 4

abbrev pub same_method : Method → Method → Bool
same_method a b = method_number a == method_number b

abbrev pub path_known : Request → Bool
path_known r = any (λ t. fits t.pattern r.path) api_router

-- The routes are tried in order.
abbrev pub route_of : Request → Option Route
route_of r = find? (λ t. same_method t.method r.method && fits t.pattern r.path) api_router

abbrev response_of? : Option Route → Option Shape
response_of? none = none
response_of? (some t) = some t.response

-- What the route of a request declares as the answer if it accepts the request.
abbrev pub response_of : Request → Option Shape
response_of r = response_of? (route_of r)

abbrev pub as_size : Option ParamValue → Option ℕ
as_size none = none
as_size (some (number n)) = some n
as_size (some (text s)) = none
as_size (some (flag b)) = none

unfoldable pub sent_size : Request → Option ℕ
sent_size r = as_size (lookup "size" r.params)

pub data Answer : Type 0 where
  not_found method_not_allowed unprocessable : Answer
  status : ℕ → Answer

-- The framework's answer to a request with a valid token.
pub record Server : Type 0 where
  pub answer : Request → Answer
  pub unknown_path : (r : Request) → path_known r ≡ false → answer r ≡ not_found
  pub other_method :
      (r : Request) → path_known r ≡ true → route_of r ≡ none → answer r ≡ method_not_allowed
  pub too_large :
      (r : Request) (t : Route) (most n : ℕ)
      → route_of r ≡ some t
      → t.max_size ≡ some most
      → sent_size r ≡ some n
      → most < n
      → answer r ≡ unprocessable
