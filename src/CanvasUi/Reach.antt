-- ===== src/CanvasUi/Reach.antt =====
-- What the handlers lead to, from the state with which the store starts.
use datacenter_manager.Prelude.{
  ℕ, String, ◌≡◌, ◌≢◌, refl, sym, ◌∙◌, ◌⊎◌, inl, inr, true, false, not, ◌&&◌, Option, none, some,
  List, [], ◌∷◌, str_eq, Bool-cases, arith, eq_iff,
}
use datacenter_manager.Session.{truthy}
use datacenter_manager.CanvasUi.{
  ContextMenuState, TopologyUi, HopPathResponse, default_topology_ui, open_side_panel,
  close_side_panel, open_context_menu, close_context_menu, view_detail, open_device_page,
  highlight_path, trace_route, clear_highlight, offers_clear, path_query, both, menu_node,
  path_answered, physical_pane_click, handle_vlan_click, handle_tab_change, set_highlighted_vlan,
  panel_open, shows_click_hint, is_id,
}

-- Something that happens to the canvas, while it can; `api a b` is the answer on the path from a to b.
pub data Step (api : String → String → HopPathResponse) (s : TopologyUi) : TopologyUi → Type 0 where
  clicks_node : (id : String) → Step api s (open_side_panel id s)
  clicks_pane : Step api s (close_context_menu s)
  clicks_physical_pane : Step api s (physical_pane_click s)
  right_clicks : (c : ContextMenuState) → Step api s (open_context_menu c s)
  leaves_menu : Step api s (close_context_menu s)
  clicks_view_detail :
      (c : ContextMenuState) → s.context_menu ≡ some c → Step api s (view_detail c.node_id s)
  clicks_open_page :
      (c : ContextMenuState) → s.context_menu ≡ some c → Step api s (open_device_page s)
  clicks_highlight :
      (c : ContextMenuState) → s.context_menu ≡ some c → Step api s (highlight_path c.node_id s)
  clicks_trace :
      (c : ContextMenuState) → s.context_menu ≡ some c → Step api s (trace_route c.node_id s)
  clicks_clear :
      (c : ContextMenuState)
      → s.context_menu ≡ some c
      → offers_clear s ≡ true
      → Step api s (clear_highlight s)
  answers : (a b : String) → path_query s ≡ some (a, b) → Step api s (path_answered (api a b) s)
  clicks_vlan : (v : ℕ) → Step api s (handle_vlan_click v s)
  clears_filter : Step api s (set_highlighted_vlan none s)
  closes_panel : panel_open s ≡ true → Step api s (close_side_panel s)
  changes_tab : Step api s (handle_tab_change s)

pub data Reach (api : String → String → HopPathResponse) : TopologyUi → Type 0 where
  start : Reach api default_topology_ui
  next : {s t : TopologyUi} → Reach api s → Step api s t → Reach api t

-- A highlighted path is empty, one device that was picked, or the API's answer on the path between
-- two devices.
abbrev pub PathFrom : (String → String → HopPathResponse) → List String → List String → Type 0
PathFrom api devices links =
    ((devices ≡ []) × (links ≡ []))
    ⊎ ((id : String) × (devices ≡ id ∷ []) × (links ≡ []))
    ⊎ ((a : String) × (b : String) × (a ≢ b)
        × ((api a b).reachable ≡ true)
        × (devices ≡ (api a b).path_device_ids)
        × (links ≡ (api a b).path_link_ids))

unfoldable pub IsSound : (String → String → HopPathResponse) → TopologyUi → Type 0
IsSound api s =
    ((s.selected_node_id ≡ none) ⊎ (s.side_panel_open ≡ true))
    × PathFrom api s.highlighted_path s.highlighted_link_ids

both_differ : (o p : Option String) (a b : String) → both o p ≡ some (a, b) → a ≢ b
both_differ none p a b e = absurd (cc)
both_differ (some x) none a b e = absurd (cc)
both_differ (some x) (some y) a b e =
    elim (Bool-cases (truthy (some x) && truthy (some y) && not (str_eq x y))) [
      | inl on ↦
          let same : ◌≡◌ {A = Option (String × String)} (some (x, y)) (some (a, b)) = rw on at e in
          λ ab.
            let xa : x ≡ a = cc same in
            let yb : y ≡ b = cc same in
            let xy = (eq_iff x y).1 (xa ∙ ab ∙ sym yb) in absurd (ground (arith, on, xy))
      | inr off ↦ absurd (cc (rw off at e))
    ]

trace_route-IsSound :
    (api : String → String → HopPathResponse) (id : String) (s : TopologyUi)
    → IsSound api s
    → IsSound api (trace_route id s)
unfolding IsSound trace_route
trace_route-IsSound api id s h = elim (Bool-cases (truthy s.trace_from_id)) [
  | inl picked ↦ elim (Bool-cases (is_id s.trace_from_id id)) [
    | inl same ↦ rw (picked, same) h
    | inr other ↦ rw (picked, other) h
  ]
  | inr first ↦ rw first h
]

path_answered-IsSound :
    (api : String → String → HopPathResponse) (a b : String) (s : TopologyUi)
    → a ≢ b
    → IsSound api s
    → IsSound api (path_answered (api a b) s)
unfolding IsSound path_answered
path_answered-IsSound api a b s d h = elim (Bool-cases (api a b).reachable) [
  | inl reached ↦ rw reached (h.0, inr (inr (a, b, d, reached, refl, refl)))
  | inr cut ↦ rw cut h
]

Step-IsSound :
    {api : String → String → HopPathResponse} {s t : TopologyUi}
    → Step api s t
    → IsSound api s
    → IsSound api t
unfolding IsSound view_detail open_device_page highlight_path clear_highlight handle_vlan_click
    handle_tab_change physical_pane_click path_query
Step-IsSound (clicks_node id) h = (inr refl, h.1)
Step-IsSound clicks_pane h = h
Step-IsSound clicks_physical_pane h = (inl refl, h.1)
Step-IsSound (right_clicks c) h = h
Step-IsSound leaves_menu h = h
Step-IsSound (clicks_view_detail c e) h = (inr refl, h.1)
Step-IsSound (clicks_open_page c e) h = h
Step-IsSound (clicks_highlight c e) h = (h.0, inr (inl (c.node_id, refl, refl)))
Step-IsSound {api} {s} (clicks_trace c e) h = trace_route-IsSound api c.node_id s h
Step-IsSound (clicks_clear c e o) h = (h.0, inl (refl, refl))
Step-IsSound {api} {s} (answers a b e) h =
    path_answered-IsSound api a b s (both_differ s.trace_from_id (menu_node s.context_menu) a b e) h
Step-IsSound (clicks_vlan v) h = h
Step-IsSound clears_filter h = h
Step-IsSound (closes_panel o) h = (inl refl, h.1)
Step-IsSound changes_tab h = (h.0, inl (refl, refl))

start-IsSound : (api : String → String → HopPathResponse) → IsSound api default_topology_ui
unfolding IsSound
start-IsSound api = (inl refl, inl (refl, refl))

-- In every state of the canvas that its handlers reach, a selected node has its panel open, so that
-- the hint to click a device is never shown, and the highlighted path is empty, one device, or what
-- the API answered as the path between two different devices.
pub Reach-IsSound :
    {api : String → String → HopPathResponse} {s : TopologyUi}
    → Reach api s
    → IsSound api s × (shows_click_hint s ≡ false)
unfolding IsSound shows_click_hint
Reach-IsSound {api} {s} r =
    let h = sound r in (h, elim h.0 [ inl e ↦ rw e refl | inr o ↦ ground (arith, o) ])
  where
    sound : {s : TopologyUi} → Reach api s → IsSound api s
    sound start = start-IsSound api
    sound (next r st) = Step-IsSound st (sound r)
