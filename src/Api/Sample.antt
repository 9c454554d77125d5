-- ===== src/Api/Sample.antt =====
-- A server and a way of matching keys that meet what the code relies on of them.
use datacenter_manager.Prelude.{
  ℕ, String, Bool, true, false, Option, none, some, List, [], ◌∷◌, ◌++◌, ◌≡◌, ◌<◌, ◌&&◌, ◌==◌, refl,
  ap, ◌∙◌, str_eq, eq_refl, any, find?, ltb, if◌then◌else◌, arith, ==_iff,
}
use datacenter_manager.Api.{Request, KeyPart, name, filter, count, missing}
use datacenter_manager.Api.Routes.{api_router}
use datacenter_manager.Api.Routes.Pattern.{Route}
use datacenter_manager.Api.Server.{
  Server, Answer, not_found, method_not_allowed, unprocessable, status, path_known, route_of,
  sent_size, fits, same_method,
}
use datacenter_manager.Api.Refresh.{Matching}

abbrev pub is_over : Option ℕ → Option ℕ → Bool
is_over none n = false
is_over (some most) none = false
is_over (some most) (some n) = ltb most n

abbrev pub reply : Bool → Option Route → Option ℕ → Answer
reply known none n = if known then method_not_allowed else not_found
reply known (some t) n = if is_over t.max_size n then unprocessable else status 200

none_found :
    {A : Type 0} (p q : A → Bool) (xs : List A)
    → any q xs ≡ false
    → find? (λ x. p x && q x) xs ≡ none
none_found p q [] h = refl
none_found p q (x ∷ xs) h = ground (arith, none_found p q xs)

abbrev pub answer_200 : Request → Answer
answer_200 r = reply (path_known r) (route_of r) (sent_size r)

pub unknown : (r : Request) → path_known r ≡ false → answer_200 r ≡ not_found
unknown r h =
    let e =
      none_found (λ (t : Route). same_method t.method r.method) (λ t. fits t.pattern r.path)
        api_router h in
    ap (λ o. reply (path_known r) o (sent_size r)) e ∙ ap (λ b. reply b none (sent_size r)) h

pub other :
    (r : Request) → path_known r ≡ true → route_of r ≡ none → answer_200 r ≡ method_not_allowed
other r h e =
    ap (λ o. reply (path_known r) o (sent_size r)) e ∙ ap (λ b. reply b none (sent_size r)) h

over :
    (b : Bool) (t : Route) (most n : ℕ) (o : Option ℕ)
    → t.max_size ≡ some most
    → o ≡ some n
    → most < n
    → reply b (some t) o ≡ unprocessable
over b t most n o m e lt = ground arith

pub large :
    (r : Request) (t : Route) (most n : ℕ)
    → route_of r ≡ some t
    → t.max_size ≡ some most
    → sent_size r ≡ some n
    → most < n
    → answer_200 r ≡ unprocessable
large r t most n e m s lt =
    ap (λ o. reply (path_known r) o (sent_size r)) e
    ∙ over (path_known r) t most n (sent_size r) m s lt

abbrev pub server : Server
server = record {
  answer = answer_200;
  unknown_path = unknown;
  other_method = other;
  too_large = large;
}

abbrev pub same_part : KeyPart → KeyPart → Bool
same_part (name s) (name t) = str_eq s t
same_part (filter p) (filter q) = true
same_part (count m) (count n) = m == n
same_part missing missing = true
same_part _ _ = false

abbrev pub is_prefix : List KeyPart → List KeyPart → Bool
is_prefix [] k = true
is_prefix (x ∷ p) [] = false
is_prefix (x ∷ p) (y ∷ k) = same_part x y && is_prefix p k

same_part_refl : (x : KeyPart) → same_part x x ≡ true
same_part_refl (name s) = eq_refl s
same_part_refl (filter p) = refl
same_part_refl (count n) = (==_iff n n).1 refl
same_part_refl missing = refl

pub prefix_extends : (p k : List KeyPart) → is_prefix p (p ++ k) ≡ true
prefix_extends [] k = refl
prefix_extends (x ∷ p) k = rw (same_part_refl x) (prefix_extends p k)

pub prefix_differs :
    (c : List KeyPart) (s t : String) (p k : List KeyPart)
    → str_eq s t ≡ false
    → is_prefix (c ++ name s ∷ p) (c ++ name t ∷ k) ≡ false
prefix_differs [] s t p k h = rw h refl
prefix_differs (x ∷ c) s t p k h = rw (same_part_refl x) (prefix_differs c s t p k h)

abbrev pub library : Matching
library = record { matches = is_prefix; extends = prefix_extends; differs = prefix_differs }
