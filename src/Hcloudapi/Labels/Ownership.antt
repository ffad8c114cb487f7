-- ===== src/Hcloudapi/Labels/Ownership.antt =====
-- Properties of internal/hcloudapi/labels.go.
use karpenter_provider_hclou.Base.{
  ◌≡◌, ◌≢◌, ◌↔◌, true, some, [], ◌∷◌, String, arith, eq_iff, Option-cases, inl, inr,
}
use karpenter_provider_hclou.Base.Map.{Map, lookup, get}
use karpenter_provider_hclou.Hcloudapi.Labels.{label_managed_by, labels_managed_by, is_managed_by}
use karpenter_provider_hclou.Hcloudapi.Servers.{Server}

pub get-lookup : (m : Map String) (k : String) {v : String} → lookup k m ≡ some v → get m k ≡ v
unfolding get
get-lookup m k h = rw (h, get)

owned :
    (labels : Map String) (c : String)
    → labels_managed_by labels c ≡ true
    → (c ≢ "") × (lookup label_managed_by labels ≡ some c)
unfolding labels_managed_by get lookup
owned [] c h = cc
owned (e ∷ labels) c h = elim (Option-cases (lookup label_managed_by (e ∷ labels))) [
  | inl missing ↦ ground (arith, eq_iff c "", eq_iff "" c)
  | inr (v, found) ↦ ground (arith, eq_iff c "", eq_iff v c)
]

labelled :
    (labels : Map String) (c : String)
    → c ≢ ""
    → lookup label_managed_by labels ≡ some c
    → labels_managed_by labels c ≡ true
unfolding labels_managed_by lookup
labelled [] c n h = cc
labelled (e ∷ labels) c n h =
    rw (get-lookup (e ∷ labels) label_managed_by h) (ground (arith, eq_iff c "", eq_iff c c))

-- The ownership test accepts a server exactly when the cluster name is not empty and the server
-- carries the label with that name: it refuses a server without labels, without the key or with
-- another value, and every server where the cluster name is empty.
is_managed_by_iff :
    (s : Server) (cluster_name : String)
    → (is_managed_by (some s) cluster_name ≡ true)
      ↔ ((cluster_name ≢ "") × (lookup label_managed_by s.labels ≡ some cluster_name))
unfolding is_managed_by
is_managed_by_iff s c = (owned s.labels c, λ h. labelled s.labels c h.0 h.1)
