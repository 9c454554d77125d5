-- ===== src/TreeView/Unfiltered.antt =====
-- Selecting, searching and closing the panel leave the rows where they are.
use datacenter_manager.Prelude.{ℕ, ◌<◌, String, ◌≡◌, ◌↔◌, Option, List}
use datacenter_manager.DeviceRecords.{DeviceRead}
use datacenter_manager.InfraRecords.{DataCenterRead}
use datacenter_manager.TreeView.{NodeData, datacenter, room, rack, device, interface, vm, Queries}
use datacenter_manager.TreeView.Rows.{View, tree}
use datacenter_manager.TreeView.Visible.{Cached, Child, Below, itself, under, Visible, Shows}
use datacenter_manager.TreeView.Refinement.{tree-Visible}
use datacenter_manager.TreeView.Page.{
  PageState, Handler, toggles, expands_all, collapses_all, closes_panel, clears_search, selects,
  searches, handle, view_of,
}

module _ (expanded : List String) (qc : Queries) where
  abbrev at : Option String → String → View
  at key search = record { expanded = expanded; selected_key = key; search = search; queries = qc }

  module _ (k l : Option String) (s t : String) where
    same-Child : (n c : NodeData) → Child (at k s) n c → Child (at l t) n c
    same-Child (datacenter d) c x = x
    same-Child (room r) c x = x
    same-Child (rack r) c x = x
    same-Child (device d) c x = x
    same-Child (interface i) c x = x
    same-Child (vm v) c x = x

    same-Below : {n m : NodeData} {i j : ℕ} → Below (at k s) n i m j → Below (at l t) n i m j
    same-Below itself = itself
    same-Below (under {n = n} {c = c} o x b) = under o (same-Child n c x) (same-Below b)

    same-Visible :
        (dcs : List DataCenterRead) (m : NodeData) (j : ℕ)
        → Visible (at k s) dcs m j
        → Visible (at l t) dcs m j
    unfolding Visible
    same-Visible dcs m j (dc, i, b) = (dc, i, same-Below b)

-- The handlers that are not about expansion.
pub data IsPassive : Handler → Type 0 where
  passive_close : IsPassive closes_panel
  passive_clear : IsPassive clears_search
  passive_select : (n : NodeData) → IsPassive (selects n)
  passive_search : (text : String) → IsPassive (searches text)

-- Searching, clearing the search, selecting a row and closing the panel never show or hide a row:
-- with fuel and ranks as for the rows of visible nodes, a node has a row at a depth after one of
-- these just if it had before.
pub handle-Shows :
    (lower : String → String) (rank : DeviceRead → ℕ) (qc : Queries)
    (ranked : (d b : DeviceRead)
      → d.device_type ≡ "blade_chassis"
      → Cached (qc.tree_blades d.id).cached b
      → rank b < rank d)
    (fuel : ℕ) (enough : (d : DeviceRead) → rank d < fuel) (dcs : List DataCenterRead) (h : Handler)
    (s : PageState) (m : NodeData) (j : ℕ)
    → IsPassive h
    → Shows (tree lower (view_of qc (handle dcs qc h s)) fuel dcs) m j
      ↔ Shows (tree lower (view_of qc s) fuel dcs) m j
unfolding handle
handle-Shows lower rank qc ranked fuel enough dcs h s m j p = go h p
  where
    shown : (v : View) → Type 0
    shown v = Shows (tree lower v fuel dcs) m j

    both :
        (k l : Option String) (x y : String)
        → shown (at s.expanded qc k x) ↔ shown (at s.expanded qc l y)
    both k l x y =
        let a = tree-Visible lower (at s.expanded qc k x) rank ranked fuel enough dcs m j in
        let b = tree-Visible lower (at s.expanded qc l y) rank ranked fuel enough dcs m j in
        (
          λ i. b.1 (same-Visible s.expanded qc k l x y dcs m j (a.0 i)),
          λ i. a.1 (same-Visible s.expanded qc l k y x dcs m j (b.0 i)),
        )

    go : (h : Handler) → IsPassive h → shown (view_of qc (handle dcs qc h s)) ↔ shown (view_of qc s)
    go (toggles id) p = elim p [ ]
    go expands_all p = elim p [ ]
    go collapses_all p = elim p [ ]
    go closes_panel passive_close = both _ _ _ _
    go clears_search passive_clear = both _ _ _ _
    go (selects n) (passive_select m) = both _ _ _ _
    go (searches text) (passive_search x) = both _ _ _ _
