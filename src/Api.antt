-- ===== src/Api.antt =====
-- frontend/src/api: what the hooks of the query library are given, which is a key and a request for
-- a query, and a request and the keys to invalidate for a mutation. The child modules have the
-- hooks, Api/Routes the routes of backend/app/api/v1 that the requests are meant for.
pub mod Routes
pub mod Physical
pub mod Devices
pub mod Network
pub mod Virtual
pub mod Services
pub mod Topology
pub mod Tree
pub mod Hooks
pub mod Server
pub mod Served
pub mod Methods
pub mod Sizes
pub mod Refresh
pub mod Views
pub mod Drops
pub mod Sample
mod Tests
use datacenter_manager.Prelude.{
  ℕ, String, Bool, true, false, not, Option, none, some, List, [], ◌∷◌, ◌++◌, str_eq, any, set_key,
}
use datacenter_manager.DeviceEditor.Body.{Body}

pub data Method : Type 0 where
  get post put patch delete : Method

pub data ParamValue : Type 0 where
  text : String → ParamValue
  number : ℕ → ParamValue
  flag : Bool → ParamValue

-- The parameters of a URL. Those that are undefined are left out.
abbrev pub Params : Type 0
Params = List (String × ParamValue)

-- A path in its segments, below the base URL.
pub record Request : Type 0 where
  pub method : Method
  pub path : List String
  pub params : Params
  pub body : Option Body

-- What a key consists of: names, the parameters that a list is asked for with, and numbers.
pub data KeyPart : Type 0 where
  name : String → KeyPart
  filter : Option Params → KeyPart
  count : ℕ → KeyPart
  missing : KeyPart

-- What the code takes an answer for: a page with `items` and `total`, an array, or one object.
pub data Shape : Type 0 where
  paged listed single empty : Shape

pub record Query : Type 0 where
  pub key : List KeyPart
  pub request : Request
  pub expects : Shape
  pub enabled : Bool

pub record Mutation : Type 0 where
  pub request : Request
  pub invalidates : List (List KeyPart)

-- `{ ...base, ...params }`, of which `params` may be undefined
unfoldable pub spread : Params → Params → Params
spread base [] = base
spread base ((k, v) ∷ ps) = spread (set_key k v base) ps

abbrev pub spread? : Params → Option Params → Params
spread? base none = base
spread? base (some ps) = spread base ps

-- `!!id`
abbrev pub is_given : String → Bool
is_given id = not (str_eq id "")

abbrev pub given? : Option String → Bool
given? none = false
given? (some id) = is_given id

abbrev pub name? : Option String → KeyPart
name? none = missing
name? (some s) = name s

-- `params: { k: s }` with an `s` that may be undefined
abbrev pub text? : String → Option String → Params
text? k none = []
text? k (some s) = (k, text s) ∷ []

-- What `${id}` adds to a path, for an `id` that may be undefined
abbrev pub segment? : Option String → String
segment? none = "undefined"
segment? (some s) = s

abbrev pub fetch : List String → Params → Request
fetch path ps = record { method = get; path = path; params = ps; body = none }

abbrev pub send : Method → List String → Option Body → Request
send m path b = record { method = m; path = path; params = []; body = b }

abbrev pub default_params : ℕ → Params
default_params size = ("page", number 1) ∷ ("size", number size) ∷ []

-- The forms that most hooks have.
abbrev pub list_query : String → List String → ℕ → Option Params → Query
list_query key path size params = record {
  key = name key ∷ filter params ∷ [];
  request = fetch path (spread? (default_params size) params);
  expects = paged;
  enabled = true;
}

abbrev pub item_query : String → List String → String → Query
item_query key path id = record {
  key = name key ∷ name id ∷ [];
  request = fetch (path ++ id ∷ []) [];
  expects = single;
  enabled = is_given id;
}

-- A query of what belongs to the item `id`, such as `/racks/${id}/devices` under `[KEY, id, "devices"]`.
abbrev pub part_query : String → String → String → String → Shape → Query
part_query resource id key_part path_part shape = record {
  key = name resource ∷ name id ∷ name key_part ∷ [];
  request = fetch (resource ∷ id ∷ path_part ∷ []) [];
  expects = shape;
  enabled = is_given id;
}

abbrev pub create : String → List String → Body → Mutation
create key path body = record {
  request = send post path (some body);
  invalidates = (name key ∷ []) ∷ [];
}

abbrev pub update : String → Method → List String → String → Body → Mutation
update key method path id body = record {
  request = send method (path ++ id ∷ []) (some body);
  invalidates = (name key ∷ []) ∷ [];
}

abbrev pub remove : String → List String → String → Mutation
remove key path id = record {
  request = send delete (path ++ id ∷ []) none;
  invalidates = (name key ∷ []) ∷ [];
}
