-- ===== src/Instance/Request.antt =====
-- internal/providers/instance/request.go: what an order says whichever candidate is tried.
pub mod Ownership
use karpenter_provider_hclou.Base.{
  ℕ, Bool, true, false, ◌||◌, Option, none, some, List, [], ◌∷◌, map, String, not, if◌then◌else◌,
  ◌==◌, nat_comparable, string_comparable,
}
use karpenter_provider_hclou.Base.Map.{Map, get, insert}
use karpenter_provider_hclou.Api.NodeClass.{
  HCloudNodeClass, public_ipv4_enabled, public_ipv6_enabled,
}
use karpenter_provider_hclou.Hcloudapi.Errors.{Result, ok, err, errorf}
use karpenter_provider_hclou.Hcloudapi.Labels.{label_managed_by, label_node_claim, label_node_pool}
use karpenter_provider_hclou.Hcloudapi.Servers.{CreateServerRequest}
use karpenter_provider_hclou.Karpenter.{NodeClaim}

-- `karpv1.NodePoolLabelKey`
abbrev pub node_pool_label_key : String
node_pool_label_key = "karpenter.sh/nodepool"

unfoldable pub is_ownership_label : String → Bool
is_ownership_label k = k == label_managed_by || k == label_node_claim

-- The loop over `ServerLabels`.
unfoldable pub add_server_labels : Map String → Map String → Map String
unfolding is_ownership_label
add_server_labels [] labels = labels
add_server_labels ((k, v) ∷ more) labels =
    add_server_labels more (if is_ownership_label k then labels else insert k v labels)

unfoldable pub add_pool : String → Map String → Map String
add_pool pool labels = if not (pool == "") then insert label_node_pool pool labels else labels

unfoldable pub request_labels : {R : Type 0} → String → HCloudNodeClass → NodeClaim R → Map String
unfolding add_server_labels add_pool
request_labels cluster_name node_class node_claim =
    add_server_labels node_class.spec.server_labels (
      add_pool (get node_claim.labels node_pool_label_key)
        ((label_managed_by, cluster_name) ∷ (label_node_claim, node_claim.name) ∷ []))

-- `status.Network`, if it has an id.
unfoldable pub request_network_ids : HCloudNodeClass → List ℕ
request_network_ids node_class = elim (node_class.status.network) [
  | none ↦ []
  | some net ↦ if net.id == 0 then [] else net.id ∷ []
]

unfoldable pub request_placement_group_id : HCloudNodeClass → Option ℕ
request_placement_group_id node_class = elim (node_class.status.placement_group) [
  | none ↦ none
  | some pg ↦ if pg.id == 0 then none else some pg.id
]

-- `nodeClass.Status.Image == nil || nodeClass.Status.Image.ID == 0` is `none`.
unfoldable pub resolved_image_id : HCloudNodeClass → Option ℕ
resolved_image_id node_class = elim (node_class.status.image) [
  | none ↦ none
  | some image ↦ if image.id == 0 then none else some image.id
]

unfoldable pub base_request :
    {R : Type 0} → String → HCloudNodeClass → NodeClaim R → String → Result CreateServerRequest
unfolding request_labels request_network_ids request_placement_group_id resolved_image_id
base_request cluster_name node_class node_claim user_data = elim (resolved_image_id node_class) [
  | none ↦ err (errorf "nodeClass %q has no resolved image" (node_class.name ∷ []))
  | some image_id ↦
      if cluster_name == ""
      then err (errorf "cluster name is empty, refusing to create an unowned server" [])
      else ok (record {
        name = node_claim.name;
        server_type = "";
        location = "";
        image_id = image_id;
        ssh_key_ids = map (λ k. k.id) node_class.status.ssh_keys;
        network_ids = request_network_ids node_class;
        firewall_ids = map (λ f. f.id) node_class.status.firewalls;
        placement_group_id = request_placement_group_id node_class;
        user_data = user_data;
        labels = request_labels cluster_name node_class node_claim;
        public_ipv4 = public_ipv4_enabled node_class.spec;
        public_ipv6 = public_ipv6_enabled node_class.spec;
      })
]
