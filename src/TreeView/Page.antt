-- ===== src/TreeView/Page.antt =====
-- frontend/src/pages/TreeView.tsx: the page, its state and every handler, and what its body shows.
use datacenter_manager.Prelude.{ℕ, String, Bool, true, false, Option, none, some, List, [], ◌∷◌}
use datacenter_manager.InfraRecords.{DataCenterRead}
use datacenter_manager.TreeView.{
  NodeData, node_key, Queries, toggle, expand_all, collapse_all, handle_select,
}
use datacenter_manager.TreeView.Matching.{is_nonempty}
use datacenter_manager.TreeView.Rows.{Item, View, tree}
use datacenter_manager.TreeView.DetailPanel.{Field, fields}

pub record PageState : Type 0 where
  pub expanded : List String
  pub selected_node : Option NodeData
  pub search : String

abbrev pub opened_page : PageState
opened_page = record { expanded = []; selected_node = none; search = "" }

pub data Handler : Type 0 where
  toggles : String → Handler
  expands_all collapses_all closes_panel clears_search : Handler
  selects : NodeData → Handler
  searches : String → Handler

-- `dcs` and the cache are what the page reads when the handler runs.
unfoldable pub handle : List DataCenterRead → Queries → Handler → PageState → PageState
handle dcs qc (toggles id) s = record s { expanded = toggle id s.expanded }
handle dcs qc expands_all s = record s { expanded = expand_all qc dcs s.expanded }
handle dcs qc collapses_all s = record s { expanded = collapse_all }
handle dcs qc closes_panel s = record s { selected_node = none }
handle dcs qc clears_search s = record s { search = "" }
handle dcs qc (selects n) s = record s { selected_node = handle_select n s.selected_node }
handle dcs qc (searches text) s = record s { search = text }

abbrev pub selected_key_of : Option NodeData → Option String
selected_key_of none = none
selected_key_of (some n) = some (node_key n)

abbrev pub view_of : Queries → PageState → View
view_of qc s = record {
  expanded = s.expanded;
  selected_key = selected_key_of s.selected_node;
  search = s.search;
  queries = qc;
}

pub data Body : Type 0 where
  spinner no_datacenters : Body
  rows : List Item → Body

unfoldable pub body :
    (String → String) → ℕ → Bool → List DataCenterRead → Queries → PageState → Body
body lower fuel true dcs qc s = spinner
body lower fuel false [] qc s = no_datacenters
body lower fuel false (dc ∷ dcs) qc s = rows (tree lower (view_of qc s) fuel (dc ∷ dcs))

-- The fields of the detail panel, where it is there.
unfoldable pub detail_panel : PageState → Option (List Field)
detail_panel s = shown s.selected_node
  where
    shown : Option NodeData → Option (List Field)
    shown none = none
    shown (some n) = some (fields n)

-- Whether the button that clears the search, and the note that matches are highlighted, are there.
unfoldable pub shows_search_note : PageState → Bool
shows_search_note s = is_nonempty s.search
