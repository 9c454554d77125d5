-- ===== src/Elevation/Edits.antt =====
-- A rack that is edited by mouse again and again, each time over the list that the last write left.
use datacenter_manager.Prelude.{ℕ, List, some, ◌≡◌}
use datacenter_manager.Prelude.Int.{ℤ}
use datacenter_manager.Topology.{RackElevationDevice}
use datacenter_manager.Elevation.{Widget, State, Put, apply_put, handle_mouse_up}
use datacenter_manager.Elevation.Mouse.{Reach}
use datacenter_manager.Elevation.Layout.{IsSound, handle_mouse_up-IsSound}

module _ (w : Widget) (scale : ℕ) (total : ℤ) where
  -- Writes that were accepted and shown before the next interaction began.
  pub data Edits : List RackElevationDevice → List RackElevationDevice → Type 0 where
    untouched : {ds : List RackElevationDevice} → Edits ds ds
    edited :
        {ds es : List RackElevationDevice} (s : State) (p : Put)
        → Edits ds es
        → Reach w scale total es s
        → (handle_mouse_up es s).1 ≡ some p
        → Edits ds (apply_put p es)

  -- A sound layout stays sound over any number of edits by mouse, as long as the list that is shown
  -- is up to date when an interaction begins.
  pub Edits-IsSound :
      {ds es : List RackElevationDevice} → Edits ds es → IsSound total ds → IsSound total es
  Edits-IsSound untouched sound = sound
  Edits-IsSound (edited {ds} {es} s p before reach e) sound =
      handle_mouse_up-IsSound w scale total es s p (Edits-IsSound before sound) reach e
