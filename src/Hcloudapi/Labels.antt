-- ===== src/Hcloudapi/Labels.antt =====
-- internal/hcloudapi/labels.go: the labels that decide what this cluster's provider owns.
pub mod Ownership
use karpenter_provider_hclou.Base.{
  Bool, true, false, Option, none, some, String, is_empty, if◌then◌else◌, ◌||◌, ◌==◌,
  string_comparable,
}
use karpenter_provider_hclou.Base.Map.{Map, get}
use karpenter_provider_hclou.Hcloudapi.Servers.{Server}

abbrev pub label_managed_by : String
label_managed_by = "karpenter.sh/managed-by"

abbrev pub label_node_pool : String
label_node_pool = "karpenter.sh/nodepool"

abbrev pub label_node_claim : String
label_node_claim = "karpenter.itsh.dev/nodeclaim"

-- `ManagedBySelector`: a selector is the pair of the label and the value that it must have.
unfoldable pub managed_by_selector : String → String × String
managed_by_selector cluster_name = (label_managed_by, cluster_name)

-- `IsManagedBy` on the labels of a server that is there.
unfoldable pub labels_managed_by : Map String → String → Bool
labels_managed_by labels cluster_name =
    if is_empty labels || cluster_name == ""
    then false
    else get labels label_managed_by == cluster_name

-- `(*Server).IsManagedBy`; `none` is the nil pointer.
unfoldable pub is_managed_by : Option Server → String → Bool
unfolding labels_managed_by
is_managed_by none cluster_name = false
is_managed_by (some s) cluster_name = labels_managed_by s.labels cluster_name
