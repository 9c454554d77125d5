-- ===== src/TreeView/Refinement.antt =====
-- The rows of the tree are those of the nodes that the relation Visible describes.
use datacenter_manager.Prelude.{ℕ, ◌<◌, String, ◌≡◌, ◌↔◌, List}
use datacenter_manager.DeviceRecords.{DeviceRead}
use datacenter_manager.InfraRecords.{DataCenterRead}
use datacenter_manager.TreeView.{NodeData}
use datacenter_manager.TreeView.Rows.{View, datacenter_node, tree}
use datacenter_manager.TreeView.Sound.{datacenter-Below}
use datacenter_manager.TreeView.Complete.{datacenter_shown}
use datacenter_manager.TreeView.Visible.{
  Cached, Visible, Shows, Shows-flat_map, Shows-flat_map_intro,
}

-- Every row of the tree is of a visible node, at its depth, whatever is cached and expanded.
pub tree_sound :
    (lower : String → String) (v : View) (fuel : ℕ) (dcs : List DataCenterRead) (m : NodeData)
    (j : ℕ)
    → Shows (tree lower v fuel dcs) m j
    → Visible v dcs m j
unfolding tree Visible
tree_sound lower v fuel dcs m j s =
    let (dc, i, t) = Shows-flat_map m j (λ dc. datacenter_node lower v fuel dc 0) dcs s in
    (dc, i, datacenter-Below lower v m j fuel dc 0 t)

-- Where blades are of a lower rank than the chassis that holds them and fuel exceeds every rank, a
-- node has a row in the tree at a depth just when it is visible at that depth: every node above it
-- is expanded and its children are in the cache, whatever is being fetched, selected or searched.
pub tree-Visible :
    (lower : String → String) (v : View) (rank : DeviceRead → ℕ)
    (ranked : (d b : DeviceRead)
      → d.device_type ≡ "blade_chassis"
      → Cached (v.queries.tree_blades d.id).cached b
      → rank b < rank d)
    (fuel : ℕ) (enough : (d : DeviceRead) → rank d < fuel) (dcs : List DataCenterRead)
    (m : NodeData) (j : ℕ)
    → Shows (tree lower v fuel dcs) m j ↔ Visible v dcs m j
unfolding tree Visible
tree-Visible lower v rank ranked fuel enough dcs m j = (
  tree_sound lower v fuel dcs m j,
  λ (dc, i, b).
      Shows-flat_map_intro m j (λ dc. datacenter_node lower v fuel dc 0) dc dcs i
        (datacenter_shown lower v rank ranked m j fuel enough dc 0 b),
)
