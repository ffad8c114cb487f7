-- ===== src/Instance/Request/Ownership.antt =====
-- Which labels an order carries.
use karpenter_provider_hclou.Base.{
  ◌≡◌, ◌≢◌, refl, true, false, some, [], ◌∷◌, String, arith, eq_iff, ◌==◌, string_comparable, inl,
  inr, Bool-cases, ◌∙◌, ap, sym,
}
use karpenter_provider_hclou.Base.Map.{Map, get, lookup, insert, lookup-insert}
use karpenter_provider_hclou.Api.NodeClass.{HCloudNodeClass}
use karpenter_provider_hclou.Hcloudapi.Errors.{ok}
use karpenter_provider_hclou.Hcloudapi.Labels.{label_managed_by, label_node_claim, label_node_pool}
use karpenter_provider_hclou.Hcloudapi.Servers.{CreateServerRequest}
use karpenter_provider_hclou.Karpenter.{NodeClaim}
use karpenter_provider_hclou.Instance.Request.{
  is_ownership_label, add_server_labels, add_pool, request_labels, base_request,
  node_pool_label_key,
}

lookup-add_server_labels :
    (k : String) (more labels : Map String)
    → is_ownership_label k ≡ true
    → lookup k (add_server_labels more labels) ≡ lookup k labels
unfolding add_server_labels is_ownership_label
lookup-add_server_labels k [] labels h = refl
lookup-add_server_labels k ((j, v) ∷ more) labels h = ground (
  arith,
  lookup-add_server_labels k more labels h,
  lookup-add_server_labels k more (insert j v labels) h,
  lookup-insert j k v labels,
  eq_iff j k,
  eq_iff k label_managed_by,
  eq_iff k label_node_claim,
)

pool_is_other : (k : String) → is_ownership_label k ≡ true → (label_node_pool == k) ≡ false
unfolding is_ownership_label
pool_is_other k h = elim (Bool-cases (label_node_pool == k)) [
  | inl same ↦ cc (rw (sym ((eq_iff label_node_pool k).0 same)) at h)
  | inr differ ↦ differ
]

lookup-add_pool :
    (k pool : String) (labels : Map String)
    → is_ownership_label k ≡ true
    → lookup k (add_pool pool labels) ≡ lookup k labels
unfolding add_pool
lookup-add_pool k pool labels h =
    ground (arith, lookup-insert label_node_pool k pool labels, pool_is_other k h)

abbrev own_labels : String → String → Map String
own_labels cluster name = (label_managed_by, cluster) ∷ (label_node_claim, name) ∷ []

lookup-request_labels :
    {R : Type 0} (k : String) (cluster : String) (node_class : HCloudNodeClass)
    (claim : NodeClaim R)
    → is_ownership_label k ≡ true
    → lookup k (request_labels cluster node_class claim) ≡ lookup k (own_labels cluster claim.name)
unfolding request_labels
lookup-request_labels k cluster node_class claim h =
    lookup-add_server_labels k node_class.spec.server_labels
      (add_pool (get claim.labels node_pool_label_key) (own_labels cluster claim.name)) h
    ∙ lookup-add_pool k (get claim.labels node_pool_label_key) (own_labels cluster claim.name) h

base_request-fields :
    {R : Type 0} (cluster : String) (node_class : HCloudNodeClass) (claim : NodeClaim R)
    (user_data : String) (req : CreateServerRequest)
    → base_request cluster node_class claim user_data ≡ ok req
    → (cluster ≢ "")
      × (req.labels ≡ request_labels cluster node_class claim)
      × (req.name ≡ claim.name)
unfolding base_request
base_request-fields cluster node_class claim user_data req h = ground (arith, eq_iff cluster "")

-- Whatever labels the NodeClass asks for and whatever pool the claim names, an order that is made
-- carries the name of the cluster, which is not empty, as its ownership label, and the name of the
-- claim as its claim label and as the name of the server.
pub base_request-ownership :
    {R : Type 0} (cluster : String) (node_class : HCloudNodeClass) (claim : NodeClaim R)
    (user_data : String) (req : CreateServerRequest)
    → base_request cluster node_class claim user_data ≡ ok req
    → (cluster ≢ "")
      × (lookup label_managed_by req.labels ≡ some cluster)
      × (lookup label_node_claim req.labels ≡ some claim.name)
      × (req.name ≡ claim.name)
unfolding is_ownership_label lookup
base_request-ownership cluster node_class claim user_data req h =
    let (nonempty, labels, name) = base_request-fields cluster node_class claim user_data req h in
    (
      nonempty,
      ap (lookup label_managed_by) labels
          ∙ lookup-request_labels label_managed_by cluster node_class claim refl,
      ap (lookup label_node_claim) labels
          ∙ lookup-request_labels label_node_claim cluster node_class claim refl,
      name,
    )

-- The pool label is not protected in this way: a NodeClass that asks for it overrides the pool of
-- the claim on every order.
pub server_label_overrides_pool :
    {R : Type 0} (cluster pool : String) (node_class : HCloudNodeClass) (claim : NodeClaim R)
    → node_class.spec.server_labels ≡ (label_node_pool, pool) ∷ []
    → lookup label_node_pool (request_labels cluster node_class claim) ≡ some pool
unfolding request_labels add_server_labels is_ownership_label
server_label_overrides_pool cluster pool node_class claim h =
    rw (h, add_server_labels)
      (lookup-insert label_node_pool label_node_pool pool
        (add_pool (get claim.labels node_pool_label_key) (own_labels cluster claim.name)))
