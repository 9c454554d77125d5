-- ===== src/Elevation/Mouse.antt =====
-- The state machine of the mouse: the states that the handlers reach over one list of devices.
use datacenter_manager.Prelude.{
  ℕ, ◌*◌, ◌≡◌, refl, Option, none, some, List, ◌⊎◌, inl, inr, In, Bool-cases, not, ◌&&◌,
}
use datacenter_manager.Prelude.Int.{ℤ, pos, ◌+ℤ◌, ◌-ℤ◌, ◌≤ℤ◌, round_div, clamp_bounds, int_laws}
use datacenter_manager.Topology.{RackElevationDevice}
use datacenter_manager.Elevation.{
  Widget, DragState, ResizeState, State, initial, MouseEvent, drag_to, resize_to, resized, dragged,
  drag_from, resize_from, released, is_interacting, has_slot, occupied_slots, handle_mouse_move,
  handle_mouse_up, start_drag, start_resize, add_device, close_add_device, slot_click,
}

module _ (w : Widget) (scale : ℕ) (total : ℤ) (devices : List RackElevationDevice) where
  -- One event of the browser, over the list of devices that the view shows.
  pub data Step : State → State → Type 0 where
    drag_starts : {s : State} (d : RackElevationDevice) → In d devices → Step s (start_drag d s)
    resize_starts :
        {s : State} (y : ℤ) (d : RackElevationDevice) → In d devices → Step s (start_resize y d s)
    moves : {s : State} (e : MouseEvent) → Step s (handle_mouse_move w scale total e s)
    releases : {s : State} → Step s (handle_mouse_up devices s).0
    clicks_slot : {s : State} (u : ℤ) → Step s (slot_click devices u s)
    clicks_add : {s : State} → Step s (add_device s)
    closes_add : {s : State} → Step s (close_add_device s)

  pub data Reach : State → Type 0 where
    begin : Reach initial
    next : {s t : State} → Reach s → Step s t → Reach t

-- A drag knows the height and the place of a device of the list, and has moved it, if at all, to a
-- place from slot 1 on that ends in the rack, if the device is no higher than the rack.
pub record DragTracks (total : ℤ) (devices : List RackElevationDevice) (d : DragState)
    : Type 0 where
  pub device : RackElevationDevice
  pub listed : In device devices
  pub same_id : device.id ≡ d.device_id
  pub same_height : device.rack_unit_height ≡ d.device_height
  pub came_from : device.rack_unit_start ≡ some d.original_unit
  pub placed :
      (d.current_unit ≡ d.original_unit)
      ⊎ ((pos 1 ≤ℤ d.current_unit)
          × (d.device_height ≤ℤ total → d.current_unit +ℤ d.device_height ≤ℤ total +ℤ pos 1))

pub record ResizeTracks (total : ℤ) (devices : List RackElevationDevice) (r : ResizeState)
    : Type 0 where
  pub device : RackElevationDevice
  pub listed : In device devices
  pub same_id : device.id ≡ r.device_id
  pub same_height : device.rack_unit_height ≡ r.original_height
  pub stays_at : device.rack_unit_start ≡ some r.unit_start
  pub sized :
      (r.current_height ≡ r.original_height)
      ⊎ ((pos 1 ≤ℤ r.current_height)
          × (r.unit_start ≤ℤ total → r.unit_start +ℤ r.current_height ≤ℤ total +ℤ pos 1))

abbrev pub WhenSome {ℓ} : {A : Type ℓ} → (A → Type 0) → Option A → Type 0
WhenSome P none = Unit {0}
WhenSome P (some a) = P a

pub record Tracks (total : ℤ) (devices : List RackElevationDevice) (s : State) : Type 0 where
  pub drag : WhenSome (DragTracks total devices) s.drag
  pub resize : WhenSome (ResizeTracks total devices) s.resize

module _ (w : Widget) (scale : ℕ) (total : ℤ) (devices : List RackElevationDevice) where
  drag_to-DragTracks :
      (y top : ℤ) (d : DragState)
      → DragTracks total devices d
      → DragTracks total devices (drag_to w scale total y top d)
  unfolding drag_to
  drag_to-DragTracks y top d t = record {
    device = t.device;
    listed = t.listed;
    same_id = t.same_id;
    same_height = t.same_height;
    came_from = t.came_from;
    placed =
        let raw = round_div (y -ℤ top) (w.u_height * scale) +ℤ pos 1 in
        let (lo, le) = clamp_bounds (pos 1) raw (total -ℤ d.device_height +ℤ pos 1) in
        inr (lo, λ fits. let hi = le (omega int_laws) in omega int_laws);
  }

  resize_to-ResizeTracks :
      (y : ℤ) (r : ResizeState)
      → ResizeTracks total devices r
      → ResizeTracks total devices (resize_to w scale total y r)
  unfolding resize_to
  resize_to-ResizeTracks y r t = record {
    device = t.device;
    listed = t.listed;
    same_id = t.same_id;
    same_height = t.same_height;
    stays_at = t.stays_at;
    sized =
        let raw = r.original_height +ℤ round_div (y -ℤ r.start_mouse_y) (w.u_height * scale) in
        let (lo, le) = clamp_bounds (pos 1) raw (total -ℤ r.unit_start +ℤ pos 1) in
        inr (lo, λ fits. let hi = le (omega int_laws) in omega int_laws);
  }

  resized-Tracks :
      (e : MouseEvent) (s : State) (r : Option ResizeState)
      → Tracks total devices s
      → WhenSome (ResizeTracks total devices) r
      → Tracks total devices (resized w scale total e s r)
  unfolding resized
  resized-Tracks e s none t h = t
  resized-Tracks e s (some r) t h = record {
    drag = t.drag;
    resize = resize_to-ResizeTracks e.client_y r h;
  }

  dragged-Tracks :
      (e : MouseEvent) (s : State) (d : Option DragState) (top : Option ℤ)
      → Tracks total devices s
      → WhenSome (DragTracks total devices) d
      → Tracks total devices (dragged w scale total e s d top)
  unfolding dragged
  dragged-Tracks e s (some d) (some top) t h = record {
    drag = drag_to-DragTracks e.client_y top d h;
    resize = t.resize;
  }
  dragged-Tracks e s _ _ t h = resized-Tracks e s s.resize t t.resize

  drag_from-Tracks :
      (d : RackElevationDevice) (s : State) (start : Option ℤ)
      → In d devices
      → d.rack_unit_start ≡ start
      → Tracks total devices s
      → Tracks total devices (drag_from d s start)
  unfolding drag_from
  drag_from-Tracks d s none m e t = t
  drag_from-Tracks d s (some start) m e t = record {
    drag = record {
      device = d;
      listed = m;
      same_id = refl;
      same_height = refl;
      came_from = e;
      placed = inl refl;
    };
    resize = t.resize;
  }

  resize_from-Tracks :
      (y : ℤ) (d : RackElevationDevice) (s : State) (start : Option ℤ)
      → In d devices
      → d.rack_unit_start ≡ start
      → Tracks total devices s
      → Tracks total devices (resize_from y d s start)
  unfolding resize_from
  resize_from-Tracks y d s none m e t = t
  resize_from-Tracks y d s (some start) m e t = record {
    drag = t.drag;
    resize = record {
      device = d;
      listed = m;
      same_id = refl;
      same_height = refl;
      stays_at = e;
      sized = inl refl;
    };
  }

  released-Tracks :
      (s : State) (d : Option DragState) (r : Option ResizeState)
      → Tracks total devices s
      → Tracks total devices (released devices s d r).0
  unfolding released
  released-Tracks s (some d) r t = record { drag = tt; resize = t.resize }
  released-Tracks s none (some r) t = record { drag = t.drag; resize = tt }
  released-Tracks s none none t = record { drag = t.drag; resize = t.resize }

  slot_click-Tracks :
      (u : ℤ) (s : State) → Tracks total devices s → Tracks total devices (slot_click devices u s)
  unfolding slot_click
  slot_click-Tracks u s t =
      elim (Bool-cases (not (has_slot (occupied_slots devices) u) && not (is_interacting s))) [
        | inl free ↦ rw free (record { drag = t.drag; resize = t.resize })
        | inr busy ↦ rw busy t
      ]

  -- Every event keeps the description of the devices right.
  pub Step-Tracks :
      {s t : State}
      → Step w scale total devices s t
      → Tracks total devices s
      → Tracks total devices t
  unfolding handle_mouse_move handle_mouse_up start_drag start_resize add_device close_add_device
  Step-Tracks (drag_starts {s} d m) t = drag_from-Tracks d s d.rack_unit_start m refl t
  Step-Tracks (resize_starts {s} y d m) t = resize_from-Tracks y d s d.rack_unit_start m refl t
  Step-Tracks (moves {s} e) t = dragged-Tracks e s s.drag e.rack_top t t.drag
  Step-Tracks (releases {s}) t = released-Tracks s s.drag s.resize t
  Step-Tracks (clicks_slot {s} u) t = slot_click-Tracks u s t
  Step-Tracks clicks_add t = record { drag = t.drag; resize = t.resize }
  Step-Tracks closes_add t = record { drag = t.drag; resize = t.resize }

  -- In every state that the events of the mouse reach, a drag or a resize in progress is that of a
  -- placed device of the list, with its height and its first slot, and what it previews is what it
  -- began with or lies in the rack: from slot 1 on, at least one unit high, and up to the top slot
  -- where the device is no higher than the rack, or starts no higher.
  pub Reach-Tracks : {s : State} → Reach w scale total devices s → Tracks total devices s
  Reach-Tracks begin = record { drag = tt; resize = tt }
  Reach-Tracks (next r st) = Step-Tracks st (Reach-Tracks r)
