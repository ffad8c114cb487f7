-- ===== src/Bootstrap/Provider.antt =====
-- internal/providers/bootstrap/provider.go: the user data of a new node, with its join token.
pub mod Minted
use karpenter_provider_hclou.Base.{
  ℕ, not, ◌||◌, List, [], ◌∷◌, ◌++◌, String, keep, is_empty, if◌then◌else◌, ◌==◌, string_comparable,
}
use karpenter_provider_hclou.Base.Map.{Map, get}
use karpenter_provider_hclou.Api.NodeClass.{HCloudNodeClass}
use karpenter_provider_hclou.Bootstrap.CloudInit as CloudInit
use karpenter_provider_hclou.Bootstrap.CloudInit.{Encoding, UserData}
use karpenter_provider_hclou.Bootstrap.Kubeadm.{JoinInput}
use karpenter_provider_hclou.Bootstrap.Token.{Minting, mint}
use karpenter_provider_hclou.Hcloudapi.Errors.{errorf, wrapf, Result, ok, err}
use karpenter_provider_hclou.Instance.Request.{node_pool_label_key}
use karpenter_provider_hclou.Karpenter.{NodeClaim, Taint}

-- `nodeLabels`
unfoldable pub node_labels : {R : Type 0} → NodeClaim R → Map String
unfolding get
node_labels node_claim =
    if get node_claim.labels node_pool_label_key == ""
    then keep (λ label. not (label.0 == node_pool_label_key)) node_claim.labels
    else node_claim.labels

-- `nodeTaints`
unfoldable pub node_taints : {R : Type 0} → NodeClaim R → List Taint
node_taints node_claim = node_claim.taints ++ node_claim.startup_taints

-- What is rendered, with the token.
unfoldable pub join_input : {R : Type 0} → HCloudNodeClass → NodeClaim R → String → JoinInput
unfolding node_labels node_taints
join_input node_class node_claim token = record {
  api_server_endpoint = node_class.status.api_server_endpoint;
  token = token;
  ca_cert_hashes = node_class.status.ca_cert_hashes;
  taints = node_taints node_claim;
  node_labels = node_labels node_claim;
  kubelet = node_class.spec.kubelet;
}

-- `Provider`
pub record Provider : Type 0 where
  pub encoding : Encoding
  pub ttl : ℕ
  pub cluster_name : String

module _ (m : Minting) where
  open m use {World}

  -- `Provider.Render`
  unfoldable pub render :
      {R : Type 0} → Provider → HCloudNodeClass → NodeClaim R → World → Result UserData × World
  unfolding mint join_input CloudInit.render
  render p node_class node_claim w =
      if node_class.status.api_server_endpoint == "" || is_empty node_class.status.ca_cert_hashes
      then (err (errorf "nodeclass %q has no resolved join parameters" (node_class.name ∷ [])), w)
      else (let (minted, w') = mint m p.ttl node_claim p.cluster_name w in
          elim minted [
            | err e ↦ (err (wrapf "minting a join token for %q, %w" (node_claim.name ∷ []) e), w')
            | ok token ↦ (
              CloudInit.render p.encoding node_class.spec.bootstrap
                  (join_input node_class node_claim token),
              w',
            )
          ])
