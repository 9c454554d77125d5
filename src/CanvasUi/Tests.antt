-- ===== src/CanvasUi/Tests.antt =====
-- A route traced from one device to another, and a third one clicked.
use datacenter_manager.Prelude.{
  String, ◌≡◌, ◌≢◌, refl, ◌↔◌, true, false, none, some, [], ◌∷◌, In, eq_iff,
}
use datacenter_manager.Prelude.Int.{pos}
use datacenter_manager.CanvasUi.{
  ContextMenuState, TopologyUi, HopPathResponse, default_topology_ui, open_context_menu,
  open_side_panel, trace_route, path_query, path_answered, dimmed, shows_click_hint,
}
use datacenter_manager.CanvasUi.Reach.{
  Reach, start, next, clicks_node, right_clicks, clicks_trace, IsSound, Reach-IsSound,
}
use datacenter_manager.CanvasUi.Trace.{trace_route-again}

abbrev at : String → ContextMenuState
at id = record { node_id = id; x = pos 0; y = pos 0 }

abbrev answer : HopPathResponse
answer = record {
  reachable = true;
  path_device_ids = "a" ∷ "m" ∷ "b" ∷ [];
  path_link_ids = "l" ∷ "k" ∷ [];
}

clicked : TopologyUi
clicked = trace_route "a" (open_context_menu (at "a") (open_side_panel "a" default_topology_ui))

clicked-Reach : Reach (λ a b. answer) clicked
unfolding clicked
clicked-Reach =
    next (next (next start (clicks_node "a")) (right_clicks (at "a"))) (clicks_trace (at "a") refl)

Reach-IsSound_example : IsSound (λ a b. answer) clicked × (shows_click_hint clicked ≡ false)
Reach-IsSound_example = Reach-IsSound clicked-Reach

a_b : ◌≢◌ {A = String} "a" "b"
a_b e = let b : false ≡ true = (eq_iff "a" "b").1 e in absurd (cc)

a_m : ◌≢◌ {A = String} "a" "m"
a_m e = let b : false ≡ true = (eq_iff "a" "m").1 e in absurd (cc)

trace_route-again_example :
    let picked = trace_route "a" (open_context_menu (at "a") default_topology_ui) in
    let traced = path_answered answer (open_context_menu (at "b") picked) in
    (path_query (open_context_menu (at "b") picked) ≡ some ("a", "b"))
    × (traced.context_menu ≡ none)
    × ((dimmed "m" none traced ≡ false) ↔ In "m" answer.path_device_ids)
    × (path_query (open_context_menu (at "m") traced) ≡ some ("a", "m"))
trace_route-again_example =
    trace_route-again default_topology_ui (at "a") (at "b") (at "m") answer "m" none refl refl refl
      refl a_b a_m refl refl refl
