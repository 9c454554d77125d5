-- ===== src/PhysicalView/Ways.antt =====
-- Where the Back button and the breadcrumb lead.
use datacenter_manager.Prelude.{
  ◌↔◌, ◌≡◌, ◌≢◌, refl, sym, ◌∙◌, String, true, false, Option, none, some, ◌++◌, In, inl, inr, ◌⊎◌,
  In-append,
}
use datacenter_manager.Topology.{FloorPlanRack, FloorPlanRoom}
use datacenter_manager.Elevation.RackDiagram.{DevicePanelInfo}
use datacenter_manager.PhysicalView.{
  ZoomLevel, room_level, rack_level, chassis_level, ViewMode, grid_mode, rack_mode, State, up_from,
  drill_up, to_level, drill_to_level, Crumb, crumb_of, crumbs, blank, main_view, is_chassis,
  view_at, room_crumb, rack_crumb, chassis_crumb,
}
use datacenter_manager.PhysicalView.Navigation.{Reach, Origin, Placed, IsPlaced, Reach-IsPlaced}

back_blank :
    (mode : ViewMode) (room : Option FloorPlanRoom) (rack : Option FloorPlanRack)
    → Origin mode room rack
    → (view_at rack_level mode rack none ≡ blank) ↔ (mode ≡ rack_mode)
back_blank mode room none (inl (a, b, c)) = (λ e. c, λ e. refl)
back_blank mode room none (inr (a, b, c)) = absurd (a refl)
back_blank mode room (some k) (inl (a, b, c)) = absurd (cc)
back_blank mode room (some k) (inr (a, b, c)) = (λ e. absurd (cc), λ e. absurd (cc))

-- In a state that the clicks reach with a chassis on show, the Back button shows the rack that was
-- selected, unless the chassis was opened from the room's rack view: then it leaves the canvas
-- area empty.
pub drill_up-blank_iff :
    {home : String} {s : State}
    → Reach home s
    → s.level ≡ chassis_level
    → (main_view (drill_up s) ≡ blank) ↔ (s.view_mode ≡ rack_mode)
unfolding IsPlaced drill_up up_from main_view
drill_up-blank_iff {home} {s} r e =
    let p = Reach-IsPlaced r in
    let (a, b, o) : Placed chassis_level s.view_mode s.selected_room s.selected_rack
        s.selected_chassis s.detail_device s.panel_rack =
      rw e at p in
    rw e (back_blank s.view_mode s.selected_room s.selected_rack o)

In-crumb_of :
    {A : Type 0}
    → (c : Crumb) (f : A → Crumb) (o : Option A) → In c (crumb_of f o)
    → (a : A) × (o ≡ some a) × (c ≡ f a)
In-crumb_of c f none m = absurd m
In-crumb_of c f (some a) (inl e) = (a, refl, cc)
In-crumb_of c f (some a) (inr m) = absurd m

-- A crumb that can be clicked is the first one, or that of the rack while a chassis is shown.
crumb_kind :
    (home : String) (s : State) (c : Crumb)
    → In c (crumbs home s)
    → c.clickable ≡ true
    → (c.target_level ≡ room_level)
      ⊎ ((c.target_level ≡ rack_level)
          × (is_chassis s.level ≡ true)
          × ((k : FloorPlanRack) × (s.selected_rack ≡ some k)))
unfolding crumbs
crumb_kind home s c (inl first) e = inl (λ i. (sym first i).target_level)
crumb_kind home s c (inr m) e =
    let chassis_crumbs = crumb_of chassis_crumb s.selected_chassis in
    let rack_crumbs = crumb_of (rack_crumb s.level) s.selected_rack in
    elim (In-append c (crumb_of room_crumb s.selected_room) (rack_crumbs ++ chassis_crumbs) m) [
      | inl room ↦
          let (a, o, q) = In-crumb_of c room_crumb s.selected_room room in
          inl (λ i. (q i).target_level)
      | inr n ↦ elim (In-append c rack_crumbs chassis_crumbs n) [
        | inl rack ↦
            let (a, o, q) = In-crumb_of c (rack_crumb s.level) s.selected_rack rack in
            let k : c.clickable ≡ is_chassis s.level = λ i. (q i).clickable in
            inr (λ i. (q i).target_level, sym k ∙ e, (a, o))
        | inr chassis ↦
            let (a, o, q) = In-crumb_of c chassis_crumb s.selected_chassis chassis in
            let k : c.clickable ≡ false = λ i. (q i).clickable in absurd (cc)
      ]
    ]

room_shows :
    (mode : ViewMode) (rack : Option FloorPlanRack) (chassis : Option DevicePanelInfo)
    → view_at room_level mode rack chassis ≢ blank
room_shows grid_mode rack chassis e = cc
room_shows rack_mode rack chassis e = cc

rack_shows :
    (mode : ViewMode) (l : ZoomLevel) (k : FloorPlanRack) (s : State)
    → is_chassis l ≡ true
    → s.selected_rack ≡ some k
    → main_view (to_level rack_level l s) ≢ blank
unfolding main_view to_level
rack_shows mode room_level k s e r = cc
rack_shows mode rack_level k s e r = cc
rack_shows mode chassis_level k s e r = rw r (λ b. cc)

-- A crumb that can be clicked always leads to a view: the room's, or the diagram of the rack that
-- is selected.
pub drill_to_level-shows :
    (home : String) (s : State) (c : Crumb)
    → In c (crumbs home s)
    → c.clickable ≡ true
    → main_view (drill_to_level c.target_level s) ≢ blank
unfolding crumbs drill_to_level to_level main_view
drill_to_level-shows home s c m e = elim (crumb_kind home s c m e) [
  | inl room ↦ rw room (room_shows s.view_mode none none)
  | inr (rack, chassis, (k, r)) ↦ rw rack (rack_shows s.view_mode s.level k _ chassis r)
]
