-- ===== src/CanvasUi.antt =====
-- frontend/src/store/uiStore.ts: the state of the topology canvas, and the components that change and
-- read it: components/topology/ContextMenu.tsx, NetworkTopologyCanvas.tsx, PhysicalTopologyCanvas.tsx,
-- DeviceSidePanel.tsx, nodes/DeviceNode.tsx, edges/NetworkEdge.tsx and pages/Topology.tsx. The answer
-- of the API on a path is a parameter where it is used.
pub mod Reach
pub mod Trace
mod Tests
use datacenter_manager.Prelude.{
  ℕ, String, Bool, true, false, not, ◌&&◌, ◌||◌, Option, none, some, List, [], ◌∷◌, any, str_eq,
  ◌==◌, if◌then◌else◌,
}
use datacenter_manager.Prelude.Int.{ℤ}
use datacenter_manager.Session.{truthy}

pub record ContextMenuState : Type 0 where
  pub node_id : String
  pub x : ℤ
  pub y : ℤ

pub record TopologyUi : Type 0 where
  pub selected_node_id : Option String
  pub hovered_node_id : Option String
  pub highlighted_path : List String
  pub highlighted_link_ids : List String
  pub highlighted_vlan_id : Option ℕ
  pub context_menu : Option ContextMenuState
  pub side_panel_open : Bool
  pub trace_from_id : Option String

pub record HopPathResponse : Type 0 where
  pub reachable : Bool
  pub path_device_ids : List String
  pub path_link_ids : List String

abbrev pub default_topology_ui : TopologyUi
default_topology_ui = record {
  selected_node_id = none;
  hovered_node_id = none;
  highlighted_path = [];
  highlighted_link_ids = [];
  highlighted_vlan_id = none;
  context_menu = none;
  side_panel_open = false;
  trace_from_id = none;
}

abbrev pub set_selected_node : Option String → TopologyUi → TopologyUi
set_selected_node id s = record s { selected_node_id = id }

abbrev pub set_hovered_node : Option String → TopologyUi → TopologyUi
set_hovered_node id s = record s { hovered_node_id = id }

abbrev pub set_highlighted_path : List String → List String → TopologyUi → TopologyUi
set_highlighted_path device_ids link_ids s = record s {
  highlighted_path = device_ids;
  highlighted_link_ids = link_ids;
}

abbrev pub clear_highlighted_path : TopologyUi → TopologyUi
clear_highlighted_path s = record s {
  highlighted_path = [];
  highlighted_link_ids = [];
  trace_from_id = none;
}

abbrev pub set_highlighted_vlan : Option ℕ → TopologyUi → TopologyUi
set_highlighted_vlan id s = record s { highlighted_vlan_id = id }

abbrev pub open_context_menu : ContextMenuState → TopologyUi → TopologyUi
open_context_menu c s = record s { context_menu = some c }

abbrev pub close_context_menu : TopologyUi → TopologyUi
close_context_menu s = record s { context_menu = none }

abbrev pub open_side_panel : String → TopologyUi → TopologyUi
open_side_panel id s = record s {
  selected_node_id = some id;
  side_panel_open = true;
  context_menu = none;
}

abbrev pub close_side_panel : TopologyUi → TopologyUi
close_side_panel s = record s { side_panel_open = false; selected_node_id = none }

abbrev pub set_trace_from : Option String → TopologyUi → TopologyUi
set_trace_from id s = record s { trace_from_id = id }

-- `o === s`
abbrev pub is_id : Option String → String → Bool
is_id none s = false
is_id (some o) s = str_eq o s

-- ContextMenu: the entries, on the node `id`. Navigation changes nothing here but the menu.
unfoldable pub view_detail : String → TopologyUi → TopologyUi
view_detail id s = open_side_panel id (close_context_menu s)

unfoldable pub open_device_page : TopologyUi → TopologyUi
open_device_page s = close_context_menu s

unfoldable pub highlight_path : String → TopologyUi → TopologyUi
highlight_path id s = close_context_menu (set_highlighted_path (id ∷ []) [] s)

unfoldable pub trace_route : String → TopologyUi → TopologyUi
trace_route id s =
    if not (truthy s.trace_from_id)
    then close_context_menu (set_trace_from (some id) s)
    else (if is_id s.trace_from_id id then close_context_menu (set_trace_from none s) else s)

unfoldable pub clear_highlight : TopologyUi → TopologyUi
clear_highlight s = close_context_menu (clear_highlighted_path s)

abbrev pub is_empty {ℓ} : {A : Type ℓ} → List A → Bool
is_empty [] = true
is_empty (x ∷ xs) = false

-- Whether the entry "Clear Highlight" is there.
unfoldable pub offers_clear : TopologyUi → Bool
offers_clear s = not (is_empty s.highlighted_path) || truthy s.trace_from_id

abbrev pub menu_node : Option ContextMenuState → Option String
menu_node none = none
menu_node (some c) = some c.node_id

abbrev pub both : Option String → Option String → Option (String × String)
both none b = none
both (some a) none = none
both (some a) (some b) =
    if truthy (some a) && truthy (some b) && not (str_eq a b) then some (a, b) else none

-- The query of a path that the menu enables, from a device to another.
unfoldable pub path_query : TopologyUi → Option (String × String)
path_query s = both s.trace_from_id (menu_node s.context_menu)

-- The menu's effect, when an answer is there.
unfoldable pub path_answered : HopPathResponse → TopologyUi → TopologyUi
path_answered r s =
    if r.reachable
    then close_context_menu (set_highlighted_path r.path_device_ids r.path_link_ids s)
    else s

-- PhysicalTopologyCanvas
unfoldable pub physical_pane_click : TopologyUi → TopologyUi
physical_pane_click s = close_context_menu (set_selected_node none s)

-- NetworkTopologyCanvas
abbrev pub is_vlan : Option ℕ → ℕ → Bool
is_vlan none v = false
is_vlan (some u) v = u == v

unfoldable pub handle_vlan_click : ℕ → TopologyUi → TopologyUi
handle_vlan_click v s =
    set_highlighted_vlan (if is_vlan s.highlighted_vlan_id v then none else some v) s

-- Topology: the part of `handleTabChange` that is about the canvas
unfoldable pub handle_tab_change : TopologyUi → TopologyUi
handle_tab_change s = set_highlighted_vlan none (clear_highlighted_path s)

-- DeviceSidePanel: `open`
unfoldable pub panel_open : TopologyUi → Bool
panel_open s = s.side_panel_open && truthy s.selected_node_id

-- PhysicalTopologyCanvas: whether the hint "Click device to open details" is shown
unfoldable pub shows_click_hint : TopologyUi → Bool
shows_click_hint s = truthy s.selected_node_id && not s.side_panel_open

-- `(vlans ?? []).includes(v)`, or no VLAN is highlighted
abbrev pub vlan_match : Option ℕ → Option (List ℕ) → Bool
vlan_match none vlans = true
vlan_match (some v) none = false
vlan_match (some v) (some vs) = any (λ u. u == v) vs

-- `ids.length === 0 || ids.includes(id)`
abbrev pub in_highlight : List String → String → Bool
in_highlight ids id = is_empty ids || any (λ j. str_eq j id) ids

-- DeviceNode
unfoldable pub dimmed : String → Option (List ℕ) → TopologyUi → Bool
dimmed id vlans s =
    not (in_highlight s.highlighted_path id) || not (vlan_match s.highlighted_vlan_id vlans)

-- NetworkEdge: whether its opacity is 1, and not 0.12
unfoldable pub edge_opaque : String → Option (List ℕ) → TopologyUi → Bool
edge_opaque id vlans s =
    in_highlight s.highlighted_link_ids id && vlan_match s.highlighted_vlan_id vlans
