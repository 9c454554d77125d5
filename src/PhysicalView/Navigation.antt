-- ===== src/PhysicalView/Navigation.antt =====
-- Where the handlers lead from every state that they reach.
use datacenter_manager.Prelude.{
  ◌≡◌, ◌≢◌, refl, String, Bool, true, Option, none, some, In, inl, inr, ◌⊎◌,
}
use datacenter_manager.Topology.{FloorPlanRack, FloorPlanRoom}
use datacenter_manager.Elevation.RackDiagram.{DevicePanelInfo}
use datacenter_manager.PhysicalView.{
  ZoomLevel, room_level, rack_level, chassis_level, ViewMode, grid_mode, rack_mode, State, initial,
  change_datacenter, drill_to_rack, drill_to_chassis, up_from, drill_up, to_level, drill_to_level,
  Crumb, crumbs, set_mode, open_add_room, close_add_room, room_device_click, rack_header_click,
  set_detail_device, close_detail, close_panel, room_floor_plan, room_rack_view, rack_diagram,
  chassis_diagram, main_view, view_at,
}

-- A click that the view offers: each handler with what is shown while it can be called.
pub data Step (home : String) : State → State → Type 0 where
  datacenter_changes : {s : State} → Step home s (change_datacenter s)
  clicks_rack :
      {s : State} (room : FloorPlanRoom) (rack : FloorPlanRack)
      → main_view s ≡ room_floor_plan
      → Step home s (drill_to_rack room rack s)
  clicks_device :
      {s : State} (d : DevicePanelInfo)
      → main_view s ≡ room_rack_view
      → Step home s (room_device_click d s)
  clicks_header :
      {s : State} (rack : FloorPlanRack)
      → main_view s ≡ room_rack_view
      → Step home s (rack_header_click rack s)
  opens_chassis_in_room :
      {s : State} (chassis : DevicePanelInfo)
      → main_view s ≡ room_rack_view
      → Step home s (drill_to_chassis chassis s)
  opens_chassis :
      {s : State} (rack : FloorPlanRack) (chassis : DevicePanelInfo)
      → main_view s ≡ rack_diagram rack
      → Step home s (drill_to_chassis chassis s)
  opens_device :
      {s : State} (rack : FloorPlanRack) (d : DevicePanelInfo)
      → main_view s ≡ rack_diagram rack
      → Step home s (set_detail_device d s)
  opens_blade :
      {s : State} (chassis d : DevicePanelInfo)
      → main_view s ≡ chassis_diagram chassis
      → Step home s (set_detail_device d s)
  clicks_crumb :
      {s : State} (c : Crumb)
      → In c (crumbs home s)
      → c.clickable ≡ true
      → Step home s (drill_to_level c.target_level s)
  clicks_back : {s : State} → s.level ≢ room_level → Step home s (drill_up s)
  toggles : {s : State} (mode : ViewMode) → s.level ≡ room_level → Step home s (set_mode mode s)
  clicks_add_room : {s : State} → s.level ≡ room_level → Step home s (open_add_room s)
  closes_add_room : {s : State} → Step home s (close_add_room s)
  closes_detail : {s : State} → Step home s (close_detail s)
  closes_panel : {s : State} → Step home s (close_panel s)

pub data Reach (home : String) : State → Type 0 where
  begin : Reach home initial
  next : {s t : State} → Reach home s → Step home s t → Reach home t

-- Where the view was drilled down from: the columns of the room's racks, with nothing selected, or
-- a tile of the floor plan, with its rack and its room.
abbrev pub Origin : ViewMode → Option FloorPlanRoom → Option FloorPlanRack → Type 0
Origin mode room rack =
    ((rack ≡ none) × (room ≡ none) × (mode ≡ rack_mode))
    ⊎ ((rack ≢ none) × (room ≢ none) × (mode ≡ grid_mode))

-- What is selected fits the level.
abbrev pub Placed :
    ZoomLevel
    → ViewMode
    → Option FloorPlanRoom
    → Option FloorPlanRack
    → Option DevicePanelInfo
    → Option DevicePanelInfo
    → Option FloorPlanRack
    → Type 0
Placed room_level mode room rack chassis detail panel =
    (room ≡ none)
    × (rack ≡ none)
    × (chassis ≡ none)
    × ((panel ≡ none) ⊎ ((mode ≡ rack_mode) × (detail ≡ none)))
Placed rack_level mode room rack chassis detail panel =
    (chassis ≡ none) × (panel ≡ none) × Origin mode room rack
Placed chassis_level mode room rack chassis detail panel =
    (chassis ≢ none) × (panel ≡ none) × Origin mode room rack

unfoldable pub IsPlaced : State → Type 0
IsPlaced s =
    Placed s.level s.view_mode s.selected_room s.selected_rack s.selected_chassis s.detail_device
      s.panel_rack

at_floor_plan :
    (l : ZoomLevel) (m : ViewMode) (r : Option FloorPlanRack) (c : Option DevicePanelInfo)
    → view_at l m r c ≡ room_floor_plan
    → (l ≡ room_level) × (m ≡ grid_mode)
at_floor_plan room_level grid_mode r c e = (refl, refl)
at_floor_plan room_level rack_mode r c e = absurd (cc)
at_floor_plan rack_level m none c e = absurd (cc)
at_floor_plan rack_level m (some r) c e = absurd (cc)
at_floor_plan chassis_level m r none e = absurd (cc)
at_floor_plan chassis_level m r (some c) e = absurd (cc)

at_rack_view :
    (l : ZoomLevel) (m : ViewMode) (r : Option FloorPlanRack) (c : Option DevicePanelInfo)
    → view_at l m r c ≡ room_rack_view
    → (l ≡ room_level) × (m ≡ rack_mode)
at_rack_view room_level grid_mode r c e = absurd (cc)
at_rack_view room_level rack_mode r c e = (refl, refl)
at_rack_view rack_level m none c e = absurd (cc)
at_rack_view rack_level m (some r) c e = absurd (cc)
at_rack_view chassis_level m r none e = absurd (cc)
at_rack_view chassis_level m r (some c) e = absurd (cc)

at_rack_diagram :
    (l : ZoomLevel) (m : ViewMode) (r : Option FloorPlanRack) (c : Option DevicePanelInfo)
    (rack : FloorPlanRack)
    → view_at l m r c ≡ rack_diagram rack
    → l ≡ rack_level
at_rack_diagram room_level grid_mode r c rack e = absurd (cc)
at_rack_diagram room_level rack_mode r c rack e = absurd (cc)
at_rack_diagram rack_level m r c rack e = refl
at_rack_diagram chassis_level m r none rack e = absurd (cc)
at_rack_diagram chassis_level m r (some c) rack e = absurd (cc)

at_chassis_diagram :
    (l : ZoomLevel) (m : ViewMode) (r : Option FloorPlanRack) (c : Option DevicePanelInfo)
    (chassis : DevicePanelInfo)
    → view_at l m r c ≡ chassis_diagram chassis
    → l ≡ chassis_level
at_chassis_diagram room_level grid_mode r c chassis e = absurd (cc)
at_chassis_diagram room_level rack_mode r c chassis e = absurd (cc)
at_chassis_diagram rack_level m none c chassis e = absurd (cc)
at_chassis_diagram rack_level m (some r) c chassis e = absurd (cc)
at_chassis_diagram chassis_level m r c chassis e = refl

not_none : {A : Type 0} → (a : A) → ◌≢◌ {A = Option A} (some a) none
not_none a e = cc

module _ (mode : ViewMode) (room : Option FloorPlanRoom) (rack : Option FloorPlanRack)
    (chassis detail : Option DevicePanelInfo) (panel : Option FloorPlanRack) (adding : Bool) where
  abbrev at_level : ZoomLevel → State
  at_level l = record {
    level = l;
    view_mode = mode;
    selected_room = room;
    selected_rack = rack;
    selected_chassis = chassis;
    detail_device = detail;
    panel_rack = panel;
    show_add_room = adding;
  }

  up-IsPlaced : (l : ZoomLevel) → IsPlaced (at_level l) → IsPlaced (drill_up (at_level l))
  unfolding IsPlaced drill_up up_from
  up-IsPlaced room_level (a, b, c, d) = (a, b, c, inl refl)
  up-IsPlaced rack_level (a, b, o) = (refl, refl, a, inl refl)
  up-IsPlaced chassis_level (a, b, o) = (refl, refl, o)

  to_level-IsPlaced :
      (target l : ZoomLevel) → IsPlaced (at_level l) → IsPlaced (drill_to_level target (at_level l))
  unfolding IsPlaced drill_to_level to_level
  to_level-IsPlaced room_level l p = (refl, refl, refl, inl refl)
  to_level-IsPlaced rack_level room_level (a, b, c, d) = (a, b, c, inl refl)
  to_level-IsPlaced rack_level rack_level (a, b, o) = (a, refl, o)
  to_level-IsPlaced rack_level chassis_level (a, b, o) = (refl, refl, o)
  to_level-IsPlaced chassis_level room_level (a, b, c, d) = (a, b, c, inl refl)
  to_level-IsPlaced chassis_level rack_level (a, b, o) = (a, refl, o)
  to_level-IsPlaced chassis_level chassis_level (a, b, o) = (a, refl, o)

  detail-IsPlaced : (l : ZoomLevel) → IsPlaced (at_level l) → IsPlaced (close_detail (at_level l))
  unfolding IsPlaced close_detail
  detail-IsPlaced room_level (a, b, c, inl d) = (a, b, c, inl d)
  detail-IsPlaced room_level (a, b, c, inr (m, d)) = (a, b, c, inr (m, refl))
  detail-IsPlaced rack_level p = p
  detail-IsPlaced chassis_level p = p

  panel-IsPlaced : (l : ZoomLevel) → IsPlaced (at_level l) → IsPlaced (close_panel (at_level l))
  unfolding IsPlaced close_panel
  panel-IsPlaced room_level (a, b, c, d) = (a, b, c, inl refl)
  panel-IsPlaced rack_level (a, b, o) = (a, refl, o)
  panel-IsPlaced chassis_level (a, b, o) = (a, refl, o)

  blade-IsPlaced :
      (l : ZoomLevel) (d : DevicePanelInfo)
      → l ≢ room_level
      → IsPlaced (at_level l)
      → IsPlaced (set_detail_device d (at_level l))
  unfolding IsPlaced set_detail_device
  blade-IsPlaced room_level d n p = absurd (n refl)
  blade-IsPlaced rack_level d n p = p
  blade-IsPlaced chassis_level d n p = p

  mode-IsPlaced :
      (l : ZoomLevel) (m : ViewMode)
      → l ≡ room_level
      → IsPlaced (at_level l)
      → IsPlaced (set_mode m (at_level l))
  unfolding IsPlaced set_mode
  mode-IsPlaced room_level m e (a, b, c, d) = (a, b, c, inl refl)
  mode-IsPlaced rack_level m e p = absurd (cc)
  mode-IsPlaced chassis_level m e p = absurd (cc)

  click-IsPlaced :
      (l : ZoomLevel) (r : FloorPlanRoom) (k : FloorPlanRack)
      → main_view (at_level l) ≡ room_floor_plan
      → IsPlaced (at_level l)
      → IsPlaced (drill_to_rack r k (at_level l))
  unfolding IsPlaced drill_to_rack main_view
  click-IsPlaced l r k e p =
      let (el, em) = at_floor_plan l mode rack chassis e in
      let (a, b, c, d) : Placed room_level mode room rack chassis detail panel = rw el at p in
      (c, elim d [ inl f ↦ f | inr (f, g) ↦ absurd (cc) ], inr (not_none k, not_none r, em))

  column-IsPlaced :
      (l : ZoomLevel)
      → main_view (at_level l) ≡ room_rack_view
      → IsPlaced (at_level l)
      → ((d : DevicePanelInfo) → IsPlaced (room_device_click d (at_level l)))
        × ((k : FloorPlanRack) → IsPlaced (rack_header_click k (at_level l)))
        × ((d : DevicePanelInfo) → IsPlaced (drill_to_chassis d (at_level l)))
  unfolding IsPlaced room_device_click rack_header_click drill_to_chassis main_view
  column-IsPlaced l e p =
      let (el, em) = at_rack_view l mode rack chassis e in
      let (a, b, c, f) : Placed room_level mode room rack chassis detail panel = rw el at p in
      (
        λ d. rw el (a, b, c, inl refl),
        λ k. rw el (a, b, c, inr (em, refl)),
        λ d. (not_none d, refl, inl (b, a, em)),
      )

  rack-IsPlaced :
      (l : ZoomLevel) (d : DevicePanelInfo) (k : FloorPlanRack)
      → main_view (at_level l) ≡ rack_diagram k
      → IsPlaced (at_level l)
      → IsPlaced (drill_to_chassis d (at_level l)) × IsPlaced (set_detail_device d (at_level l))
  unfolding IsPlaced drill_to_chassis set_detail_device main_view
  rack-IsPlaced l d k e p =
      let el = at_rack_diagram l mode rack chassis k e in
      let (a, b, o) : Placed rack_level mode room rack chassis detail panel = rw el at p in
      ((not_none d, refl, o), rw el (a, b, o))

  chassis-IsPlaced :
      (l : ZoomLevel) (c d : DevicePanelInfo)
      → main_view (at_level l) ≡ chassis_diagram c
      → IsPlaced (at_level l)
      → IsPlaced (set_detail_device d (at_level l))
  unfolding main_view
  chassis-IsPlaced l c d e p =
      blade-IsPlaced l d (λ i. let h = at_chassis_diagram l mode rack chassis c e in cc) p

-- A helper above at the parts of a state.
module _ (s : State) where
  abbrev parts {ℓ} :
      {P : ViewMode
        → Option FloorPlanRoom
        → Option FloorPlanRack
        → Option DevicePanelInfo
        → Option DevicePanelInfo
        → Option FloorPlanRack
        → Bool
        → Type ℓ}
      → ((m : ViewMode) (o : Option FloorPlanRoom) (k : Option FloorPlanRack)
            (c d : Option DevicePanelInfo) (n : Option FloorPlanRack) (b : Bool)
          → P m o k c d n b)
      → P s.view_mode s.selected_room s.selected_rack s.selected_chassis s.detail_device
          s.panel_rack s.show_add_room
  parts f =
      f s.view_mode s.selected_room s.selected_rack s.selected_chassis s.detail_device s.panel_rack
        s.show_add_room

Step-IsPlaced : {home : String} {s t : State} → Step home s t → IsPlaced s → IsPlaced t
unfolding IsPlaced change_datacenter open_add_room close_add_room
Step-IsPlaced datacenter_changes p = (refl, refl, refl, inl refl)
Step-IsPlaced (clicks_rack {s} room rack e) p = parts s click-IsPlaced s.level room rack e p
Step-IsPlaced (clicks_device {s} d e) p = (parts s column-IsPlaced s.level e p).0 d
Step-IsPlaced (clicks_header {s} rack e) p = (parts s column-IsPlaced s.level e p).1 rack
Step-IsPlaced (opens_chassis_in_room {s} chassis e) p =
    (parts s column-IsPlaced s.level e p).2 chassis
Step-IsPlaced (opens_chassis {s} rack chassis e) p =
    (parts s rack-IsPlaced s.level chassis rack e p).0
Step-IsPlaced (opens_device {s} rack d e) p = (parts s rack-IsPlaced s.level d rack e p).1
Step-IsPlaced (opens_blade {s} chassis d e) p = parts s chassis-IsPlaced s.level chassis d e p
Step-IsPlaced (clicks_crumb {s} c m e) p = parts s to_level-IsPlaced c.target_level s.level p
Step-IsPlaced (clicks_back {s} l) p = parts s up-IsPlaced s.level p
Step-IsPlaced (toggles {s} mode l) p = parts s mode-IsPlaced s.level mode l p
Step-IsPlaced (clicks_add_room {s} l) p = p
Step-IsPlaced (closes_add_room {s}) p = p
Step-IsPlaced (closes_detail {s}) p = parts s detail-IsPlaced s.level p
Step-IsPlaced (closes_panel {s}) p = parts s panel-IsPlaced s.level p

-- In every state that the clicks of the view reach, what is selected fits the level: nothing at the
-- room; at a rack no chassis; at a chassis its device; at both of these the rack with its room, or
-- neither if the view shows the racks as columns. The side panel's rack is only set at the room, in
-- the rack view and with no device's details open.
pub Reach-IsPlaced : {home : String} {s : State} → Reach home s → IsPlaced s
unfolding IsPlaced
Reach-IsPlaced begin = (refl, refl, refl, inl refl)
Reach-IsPlaced (next r st) = Step-IsPlaced st (Reach-IsPlaced r)
