-- ===== src/Api/Sizes.antt =====
-- How large a page the lists ask for.
use datacenter_manager.Prelude.{
  ℕ, String, Bool, true, false, Option, none, some, [], ◌∷◌, ◌≡◌, ◌<◌, refl, ap, ◌∙◌, str_eq,
  lookup, set_key, lookup-set_key, if◌then◌else◌,
}
use datacenter_manager.Api.{
  Params, ParamValue, number, Request, Query, spread, spread?, default_params,
}
use datacenter_manager.Api.Hooks.{IsList}
use datacenter_manager.Api.Routes.Pattern.{Route}
use datacenter_manager.Api.Server.{Server, sent_size, route_of, as_size, unprocessable}

abbrev or_else : Option ParamValue → Option ParamValue → Option ParamValue
or_else none b = b
or_else (some v) b = some v

or_else-set :
    (x b : Option ParamValue) (t : Bool) (v : ParamValue)
    → or_else x (if t then some v else b) ≡ or_else (or_else x (if t then some v else none)) b
or_else-set none b true v = refl
or_else-set none b false v = refl
or_else-set (some w) b t v = refl

lookup_nil : (k : String) → lookup {V = ParamValue} k [] ≡ none
unfolding lookup
lookup_nil k = refl

lookup-spread :
    (k : String) (base ps : Params)
    → lookup k (spread base ps) ≡ or_else (lookup k (spread [] ps)) (lookup k base)
unfolding spread
lookup-spread k base [] = rw (lookup_nil k) refl
lookup-spread k base ((j, v) ∷ ps) =
    rw
      (
        lookup-spread k (set_key j v base) ps,
        lookup-spread k (set_key j v []) ps,
        lookup-set_key j k v base,
        lookup-set_key j k v [],
        lookup_nil k,
      )
      (or_else-set (lookup k (spread [] ps)) (lookup k base) (str_eq j k) v)

size_of_default : (n : ℕ) → lookup "size" (default_params n) ≡ some (number n)
unfolding lookup
size_of_default n = refl

-- The size that the caller gives, and the one that the hook adds to it.
abbrev pub given_size : Option Params → Option ParamValue
given_size none = none
given_size (some ps) = lookup "size" (spread [] ps)

abbrev pub asked_size : ℕ → Option Params → Option ℕ
asked_size default p = as_size (or_else (given_size p) (some (number default)))

sent_params :
    (default : ℕ) (p : Option Params)
    → as_size (lookup "size" (spread? (default_params default) p)) ≡ asked_size default p
sent_params default none = unfold lookup in refl
sent_params default (some ps) = ap as_size (
    lookup-spread "size" (default_params default) ps
    ∙ ap (or_else (lookup "size" (spread [] ps))) (size_of_default default))

-- The default of each list.
abbrev pub default_size : {f : Option Params → Query} → IsList f → ℕ
default_size IsList.rooms = 100
default_size IsList.corridors = 200
default_size IsList.racks = 100
default_size IsList.devices = 100
default_size IsList.interfaces = 200
default_size IsList.links = 200
default_size IsList.lag_groups = 100
default_size IsList.vlans = 200
default_size IsList.ip_networks = 200
default_size IsList.ip_addresses = 200
default_size IsList.san_fabrics = 100
default_size IsList.virt_clusters = 100
default_size IsList.virt_hosts = 200
default_size IsList.vms = 200
default_size IsList.datastores = 100
default_size IsList.licenses = 100
default_size IsList.integrations = 100
default_size IsList.users = 100
default_size IsList.alerts = 100
default_size IsList.audit_logs = 50

sent :
    {f : Option Params → Query} (h : IsList f) (p : Option Params)
    → sent_size (f p).request ≡ asked_size (default_size h) p
unfolding sent_size
sent IsList.rooms p = sent_params 100 p
sent IsList.corridors p = sent_params 200 p
sent IsList.racks p = sent_params 100 p
sent IsList.devices p = sent_params 100 p
sent IsList.interfaces p = sent_params 200 p
sent IsList.links p = sent_params 200 p
sent IsList.lag_groups p = sent_params 100 p
sent IsList.vlans p = sent_params 200 p
sent IsList.ip_networks p = sent_params 200 p
sent IsList.ip_addresses p = sent_params 200 p
sent IsList.san_fabrics p = sent_params 100 p
sent IsList.virt_clusters p = sent_params 100 p
sent IsList.virt_hosts p = sent_params 200 p
sent IsList.vms p = sent_params 200 p
sent IsList.datastores p = sent_params 100 p
sent IsList.licenses p = sent_params 100 p
sent IsList.integrations p = sent_params 100 p
sent IsList.users p = sent_params 100 p
sent IsList.alerts p = sent_params 100 p
sent IsList.audit_logs p = sent_params 50 p

-- The limit of the route that the request is for.
abbrev limit? : Option Route → Option ℕ
limit? none = none
limit? (some t) = t.max_size

abbrev pub limit_of : Request → Option ℕ
limit_of r = limit? (route_of r)

routed :
    (o : Option Route) {most : ℕ}
    → limit? o ≡ some most
    → (t : Route) × (o ≡ some t) × (t.max_size ≡ some most)
routed none h = cc
routed (some t) h = (t, refl, h)

-- A list is refused if the size that the caller gives or, without it, the default of the hook is over
-- the limit of its route.
pub answer-list :
    (s : Server) (f : Option Params → Query) (h : IsList f) (p : Option Params) (most n : ℕ)
    → limit_of (f p).request ≡ some most
    → asked_size (default_size h) p ≡ some n
    → most < n
    → s.answer (f p).request ≡ unprocessable
answer-list s f h p most n limit asked over =
    let (t, at, max) = routed (route_of (f p).request) limit in
    s.too_large (f p).request t most n at max (sent h p ∙ asked) over
