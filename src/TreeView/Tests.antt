-- ===== src/TreeView/Tests.antt =====
-- The tree of a datacenter with one room, one rack and a chassis with a blade and an interface.
use datacenter_manager.Prelude.{
  ℕ, ◌<◌, String, ◌≡◌, refl, sym, ◌⊎◌, ◌↔◌, inl, inr, false, none, some, List, [], ◌∷◌, In, eq_iff,
  if◌then◌else◌, arith,
}
use datacenter_manager.Prelude.Int.{pos}
use datacenter_manager.DeviceRecords.{DeviceRead}
use datacenter_manager.InfraRecords.{DataCenterRead, RoomRead, RackRead}
use datacenter_manager.TreeView.{
  NodeData, datacenter, room, device, node_key, Query, Queries, expand_all,
}
use datacenter_manager.TreeView.Rows.{
  TreeRow, tree_row, View, is_blade_chassis, room_node, datacenter_node, tree, node_row,
}
use datacenter_manager.TreeView.Visible.{Cached, Visible, Shows}
use datacenter_manager.TreeView.Refinement.{tree-Visible}
use datacenter_manager.TreeView.Page.{PageState, handle, searches, view_of}
use datacenter_manager.TreeView.Unfiltered.{passive_search, handle-Shows}
use datacenter_manager.TreeView.Expansion.{Loaded, expand_all-lem}
use datacenter_manager.TreeView.Refused.{FromServer, Visible-refused}
use datacenter_manager.Api.Physical.{use_data_centers}
use datacenter_manager.Api.Server.{unprocessable}
use datacenter_manager.Api.Sample.{server}
use datacenter_manager.TreeView.Speed.{speed_str, show_quotient, decimals}
use datacenter_manager.Prelude.Numerals.{show_int}
use datacenter_manager.TreeView.Badge.{spaced}

abbrev dc : DataCenterRead
dc = record {
  id = "1";
  name = "East";
  address = none;
  city = none;
  country = none;
  total_power_kw = none;
  total_cooling_kw = none;
  pue = none;
  notes = none;
}

abbrev hall : RoomRead
hall = record {
  id = "1";
  datacenter_id = "1";
  name = "Hall";
  floor = none;
  cooling_type = none;
  raised_floor = false;
  width_m = none;
  depth_m = none;
  height_m = none;
  max_power_kw = none;
  notes = none;
}

abbrev column : RackRead
column = record {
  id = "1";
  corridor_id = "1";
  name = "R1";
  row = none;
  column = none;
  total_u = pos 42;
  max_power_w = none;
  max_weight_kg = none;
  airflow_direction = none;
  power_feed_count = pos 2;
  manufacturer = none;
  model = none;
  serial_number = none;
  status = "active";
  notes = none;
}

abbrev a_device : String → String → DeviceRead
a_device id type = record {
  id = id;
  rack_id = none;
  name = id;
  device_type = type;
  manufacturer = none;
  model = none;
  part_number = none;
  serial_number = none;
  asset_tag = none;
  rack_unit_start = none;
  rack_unit_size = none;
  face = none;
  power_rated_w = none;
  power_actual_w = none;
  weight_kg = none;
  status = "active";
  management_ip = none;
  management_protocol = none;
  snmp_community = none;
  snmp_version = none;
  ssh_username = none;
  purchase_date = none;
  warranty_expiry = none;
  end_of_support_date = none;
  end_of_life_date = none;
  notes = none;
}

abbrev chassis : DeviceRead
chassis = a_device "ch" "blade_chassis"

abbrev blade : DeviceRead
blade = a_device "bl" "blade"

abbrev full : {A : Type 0} → A → Query A
full a = record { cached = some a; is_fetching = false }

-- Everything is in the cache.
abbrev all_cached : Queries
all_cached = record {
  tree_rooms = λ id. full (hall ∷ []);
  tree_racks = λ id. full (column ∷ []);
  tree_devices_rack = λ id. full (chassis ∷ []);
  tree_ifaces = λ id. full ([]);
  tree_vhost = λ id. full (none);
  tree_vms = λ id. full ([]);
  tree_blades = λ id. full (blade ∷ []);
}

abbrev after : List String → View
after expanded = record {
  expanded = expanded;
  selected_key = some (node_key (room hall));
  search = "al";
  queries = all_cached;
}

abbrev opened : View
opened = after ("datacenter-1" ∷ "room-1" ∷ "rack-1" ∷ "device-ch" ∷ [])

abbrev rank : DeviceRead → ℕ
rank d = if is_blade_chassis d then 1 else 0

ranked :
    (d b : DeviceRead)
    → d.device_type ≡ "blade_chassis"
    → Cached (all_cached.tree_blades d.id).cached b
    → rank b < rank d
ranked d b t (inl e) =
    let c = (eq_iff d.device_type "blade_chassis").1 t in rw c (rw (sym e) (omega arith))
ranked d b t (inr e) = absurd e

enough : (d : DeviceRead) → rank d < 2
enough d = ground arith

tree-Visible_example :
    Shows (tree (λ s. s) opened 2 (dc ∷ [])) (device blade) 4
    ↔ Visible opened (dc ∷ []) (device blade) 4
tree-Visible_example = tree-Visible (λ s. s) opened rank ranked 2 enough (dc ∷ []) (device blade) 4

abbrev page : PageState
page = record { expanded = opened.expanded; selected_node = none; search = "al" }

handle-Shows_example :
    Shows
      (tree
        (λ s. s)
        (view_of all_cached (handle (dc ∷ []) all_cached (searches "x") page))
        2
        (dc ∷ []))
      (device blade)
      4
    ↔ Shows (tree (λ s. s) (view_of all_cached page) 2 (dc ∷ [])) (device blade) 4
handle-Shows_example =
    handle-Shows (λ s. s) rank all_cached ranked 2 enough (dc ∷ []) (searches "x") page
      (device blade) 4 (passive_search "x")

expand_all-lem_example : In {A = String} "device-ch" (expand_all all_cached (dc ∷ []) []) ↔ (
    In {A = String} "device-ch" []
    ⊎ ((n : NodeData) × Loaded all_cached (dc ∷ []) n × (node_key n ≡ "device-ch")))
expand_all-lem_example = expand_all-lem all_cached (dc ∷ []) [] "device-ch"

-- A server that refuses the tree's pages never answers: nothing is in the cache.
abbrev nothing_cached : Queries
nothing_cached = record {
  tree_rooms = λ id. record { cached = none; is_fetching = false };
  tree_racks = λ id. record { cached = none; is_fetching = false };
  tree_devices_rack = λ id. record { cached = none; is_fetching = false };
  tree_ifaces = λ id. record { cached = none; is_fetching = false };
  tree_vhost = λ id. record { cached = none; is_fetching = false };
  tree_vms = λ id. record { cached = none; is_fetching = false };
  tree_blades = λ id. record { cached = none; is_fetching = false };
}

nothing-FromServer : FromServer server nothing_cached
nothing-FromServer = record {
  rooms = λ id xs e. absurd (cc);
  racks = λ id xs e. absurd (cc);
  devices = λ id xs e. absurd (cc);
  interfaces = λ id xs e. absurd (cc);
  vms = λ id xs e. absurd (cc);
  blades = λ id xs e. absurd (cc);
}

abbrev all_open : View
all_open = record opened { queries = nothing_cached }

Visible-refused_example :
    (server.answer (use_data_centers 1 200).request ≡ unprocessable)
    × (Visible all_open (dc ∷ []) (datacenter dc) 0
        → (◌≡◌ {A = ℕ} 0 0)
          × ((c : DataCenterRead) × In c (dc ∷ []) × (datacenter dc ≡ datacenter c)))
Visible-refused_example =
    Visible-refused server all_open (dc ∷ []) nothing-FromServer (datacenter dc) 0

abbrev hall_row : TreeRow
hall_row = node_row (λ s. s) opened (room hall) 1 "Hall" none false

hall_shown : In (tree_row hall_row) (tree (λ s. s) opened 2 (dc ∷ []))
unfolding tree datacenter_node room_node node_key
hall_shown = inr (inl refl)

speeds : (speed_str (some 2500) ≡ " — 2.5G") × (speed_str (some 1500000) ≡ " — 1.5T")
unfolding speed_str show_quotient show_int decimals
speeds = (refl, refl)

spaces : spaced "blade_chassis" ≡ "blade chassis"
unfolding spaced
spaces = refl
