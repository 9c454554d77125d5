-- ===== src/Api/Drops.antt =====
-- Which queries the four views of a rack have asked for again after a drag or resize was accepted.
use datacenter_manager.Prelude.{
  String, Bool, true, false, Option, some, List, [], ◌∷◌, ◌++◌, ◌≡◌, refl, any, map, arith,
}
use datacenter_manager.Elevation.{Widget, Effect, invalidate, refetch, after_put}
use datacenter_manager.Elevation.RackDiagram as RackDiagram
use datacenter_manager.Elevation.RoomRackView as RoomRackView
use datacenter_manager.Elevation.RackElevation as RackElevation
use datacenter_manager.Elevation.FloorPlanRackPanel as FloorPlanRackPanel
use datacenter_manager.Api.{Params, KeyPart, name, name?, filter, Query}
use datacenter_manager.Api.Devices.{use_devices}
use datacenter_manager.Api.Topology.{use_rack_elevation, use_floor_plan}
use datacenter_manager.Api.Refresh.{Matching}

abbrev invalidated : Effect → List (List KeyPart)
invalidated (invalidate k) = map name k ∷ []
invalidated refetch = []

abbrev all_invalidated : List Effect → List (List KeyPart)
all_invalidated [] = []
all_invalidated (e ∷ es) = invalidated e ++ all_invalidated es

-- What the effects of an answer have asked for again, of the queries of other views.
abbrev pub has_refreshed : Matching → List Effect → Query → Bool
has_refreshed library es q = any (λ p. library.matches p q.key) (all_invalidated es)

-- The elevation of the rack, all lists of devices and all floor plans: which are asked for again.
abbrev pub Refreshes :
    Matching → String → Option Params → Option String → Widget → Bool → Bool → Bool → Type 0
Refreshes library rack_id params datacenter_id w elevation devices floor_plan =
    let es = after_put w rack_id true in
    (has_refreshed library es (use_rack_elevation (some rack_id)) ≡ elevation)
    × (has_refreshed library es (use_devices params) ≡ devices)
    × (has_refreshed library es (use_floor_plan datacenter_id) ≡ floor_plan)

module _ (library : Matching) (rack_id : String) (params : Option Params)
    (datacenter_id : Option String) where
  abbrev Has : Widget → Bool → Bool → Bool → Type 0
  Has = Refreshes library rack_id params datacenter_id

  diagram : Has RackDiagram.widget true true false
  unfolding after_put
  diagram =
      let plan : KeyPart = name? datacenter_id in
      ground (
        arith,
        library.extends (name "topology" ∷ name "rack-elevation" ∷ name rack_id ∷ []) [],
        library.extends (name "devices" ∷ []) (filter params ∷ []),
        library.differs [] "topology" "devices" (name "rack-elevation" ∷ name rack_id ∷ [])
            (filter params ∷ []) refl,
        library.differs [] "devices" "topology" [] (name "floor-plan" ∷ plan ∷ []) refl,
        library.differs (name "topology" ∷ []) "rack-elevation" "floor-plan" (name rack_id ∷ [])
            (plan ∷ []) refl,
      )

  panel : Has FloorPlanRackPanel.widget true false true
  unfolding after_put
  panel =
      let plan : KeyPart = name? datacenter_id in
      ground (
        arith,
        library.extends (name "topology" ∷ name "rack-elevation" ∷ name rack_id ∷ []) [],
        library.extends (name "topology" ∷ name "floor-plan" ∷ []) (plan ∷ []),
        library.differs [] "topology" "devices" (name "rack-elevation" ∷ name rack_id ∷ [])
            (filter params ∷ []) refl,
        library.differs [] "topology" "devices" (name "floor-plan" ∷ []) (filter params ∷ []) refl,
      )

  -- After an accepted drag or resize every view has its elevation asked for again. The rack diagram and
  -- the room's racks also have every list of devices, and no floor plan; the rack elevation and the
  -- panel every floor plan, and no list of devices.
  pub after_put-Refreshes :
      Has RackDiagram.widget true true false
      × Has RoomRackView.widget true true false
      × Has RackElevation.widget true false true
      × Has FloorPlanRackPanel.widget true false true
  unfolding after_put
  after_put-Refreshes = (diagram, diagram, panel, panel)
