-- ===== src/FloorPlan/Panel.antt =====
-- What a click on a rack does to the panel.
use datacenter_manager.Prelude.{◌≡◌, ◌≢◌, refl, true, false, none, some, str_eq, eq_iff, arith}
use datacenter_manager.Topology.{FloorPlanRack, RackElevationDevice}
use datacenter_manager.Elevation.RackDiagram.{device_to_panel}
use datacenter_manager.FloorPlan.{
  PanelState, State, fresh_panel, set_selected_rack, handle_rack_click, click_device, in_panel,
}

-- With the panel of a rack open, a click on that rack closes it; a click on another rack keeps the
-- panel's state, so that a device of the first rack stays shown under the name of the second. After
-- the panel was closed, the next click opens it afresh.
pub handle_rack_click-panel :
    (s : State) (a b : FloorPlanRack) (p : PanelState) (d : RackElevationDevice)
    → s.selected_rack ≡ some a
    → s.panel ≡ some p
    → a.id ≢ b.id
    → let shown = in_panel (click_device d) s in
      ((handle_rack_click a shown).selected_rack ≡ none)
      × ((handle_rack_click a shown).panel ≡ none)
      × ((handle_rack_click b shown).selected_rack ≡ some b)
      × ((handle_rack_click b shown).panel
          ≡ some (record p { selected_device = some (device_to_panel d) }))
      × ((handle_rack_click b (handle_rack_click a shown)).panel ≡ some fresh_panel)
unfolding handle_rack_click set_selected_rack click_device
handle_rack_click-panel s a b p d sel open_p differ =
    let same : str_eq a.id a.id ≡ true = (eq_iff a.id a.id).1 refl in
    let other : str_eq a.id b.id ≡ false = ground (arith, eq_iff a.id b.id, differ) in
    (
      rw (sel, same) refl,
      rw (sel, same) refl,
      rw (sel, other) refl,
      rw (sel, other, open_p) refl,
      rw (sel, same) refl,
    )
