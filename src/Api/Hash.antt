-- ===== src/Api/Hash.antt =====
-- api/v1alpha1: the annotations that carry the hash of a spec.
use karpenter_provider_hclou.Base.{String}

abbrev pub annotation_hash : String
annotation_hash = "karpenter.itsh.dev/hcloudnodeclass-hash"

abbrev pub annotation_hash_version : String
annotation_hash_version = "karpenter.itsh.dev/hcloudnodeclass-hash-version"

abbrev pub hash_version : String
hash_version = "v1"
