-- ===== src/CanvasUi/Trace.antt =====
-- Tracing a route, and what a highlight leaves dimmed.
use datacenter_manager.Prelude.{
  ℕ, String, ◌≡◌, ◌≢◌, refl, subst, ◌↔◌, true, false, Option, none, some, List, In, any, any_intro,
  any-eq-true, str_eq, arith, eq_iff,
}
use datacenter_manager.Session.{truthy}
use datacenter_manager.CanvasUi.{
  ContextMenuState, TopologyUi, HopPathResponse, open_context_menu, close_context_menu,
  set_trace_from, set_highlighted_path, trace_route, path_query, path_answered, is_empty, dimmed,
}

trace_first :
    (id : String) (s : TopologyUi)
    → s.trace_from_id ≡ none
    → trace_route id s ≡ close_context_menu (set_trace_from (some id) s)
unfolding trace_route
trace_first id s e = rw e refl

query_between :
    (a : String) (d : ContextMenuState) (s : TopologyUi)
    → s.trace_from_id ≡ some a
    → truthy (some a) ≡ true
    → truthy (some d.node_id) ≡ true
    → a ≢ d.node_id
    → path_query (open_context_menu d s) ≡ some (a, d.node_id)
unfolding path_query
query_between a d s e ta td ne =
    let differ : str_eq a d.node_id ≡ false = ground (arith, eq_iff a d.node_id, ne) in
    rw e (rw (ta, td, differ) refl)

answered :
    (r : HopPathResponse) (s : TopologyUi)
    → r.reachable ≡ true
    → path_answered r s
      ≡ close_context_menu (set_highlighted_path r.path_device_ids r.path_link_ids s)
unfolding path_answered
answered r s e = rw e refl

-- With no VLAN highlighted, a device is dimmed just if there is a path and it is not on it.
dimmed-In :
    (s : TopologyUi) (id : String) (vlans : Option (List ℕ))
    → s.highlighted_vlan_id ≡ none
    → is_empty s.highlighted_path ≡ false
    → (dimmed id vlans s ≡ false) ↔ In id s.highlighted_path
unfolding dimmed
dimmed-In s id vlans e full = (
  λ h.
      let h' = rw (e, full) at h in
      let on : any (λ j. str_eq j id) s.highlighted_path ≡ true = ground (arith, h') in
      let (j, m, same) = any-eq-true (λ j. str_eq j id) s.highlighted_path on in
      subst (λ i. In i s.highlighted_path) ((eq_iff j id).0 same) m,
  λ m.
      let on = any_intro (λ j. str_eq j id) id s.highlighted_path m ((eq_iff id id).1 refl) in
      rw (e, full, on) refl,
)

-- After "Trace Route" on a device, a right click on another one asks for the path between the two. If
-- the answer is that there is one, the menu closes, a device is dimmed just if it is not on the path,
-- as long as no VLAN is highlighted, and the source stays picked: a right click on any further
-- device, too, asks for a path from it.
pub trace_route-again :
    (s : TopologyUi) (c d e : ContextMenuState) (r : HopPathResponse) (id : String)
    (vlans : Option (List ℕ))
    → s.trace_from_id ≡ none
    → truthy (some c.node_id) ≡ true
    → truthy (some d.node_id) ≡ true
    → truthy (some e.node_id) ≡ true
    → c.node_id ≢ d.node_id
    → c.node_id ≢ e.node_id
    → r.reachable ≡ true
    → s.highlighted_vlan_id ≡ none
    → is_empty r.path_device_ids ≡ false
    → let picked = trace_route c.node_id (open_context_menu c s) in
      let traced = path_answered r (open_context_menu d picked) in
      (path_query (open_context_menu d picked) ≡ some (c.node_id, d.node_id))
      × (traced.context_menu ≡ none)
      × ((dimmed id vlans traced ≡ false) ↔ In id r.path_device_ids)
      × (path_query (open_context_menu e traced) ≡ some (c.node_id, e.node_id))
trace_route-again s c d e r id vlans none_picked tc td te cd ce reached no_vlan full =
    let picked : TopologyUi =
      close_context_menu (set_trace_from (some c.node_id) (open_context_menu c s)) in
    let traced : TopologyUi =
      close_context_menu
        (set_highlighted_path r.path_device_ids r.path_link_ids (open_context_menu d picked)) in
    let first = trace_first c.node_id (open_context_menu c s) none_picked in
    let after = answered r (open_context_menu d picked) reached in
    rw first (
      rw after (
        query_between c.node_id d picked refl tc td cd,
        refl,
        dimmed-In traced id vlans no_vlan full,
        query_between c.node_id e traced refl tc te ce,
      ))
