-- ===== src/Instancetype/Resources.antt =====
-- internal/providers/instancetype/resources.go: what a server has and what the kubelet holds back.
-- An amount is in thousandths.
use karpenter_provider_hclou.Base.{
  ℕ, ◌*◌, Option, none, some, [], ◌∷◌, ◌++◌, map, String, string_comparable,
}
use karpenter_provider_hclou.Base.Int.{ℤ, pos, ◌-ℤ◌}
use karpenter_provider_hclou.Base.Map.{Map, lookup, insert}
use karpenter_provider_hclou.Api.Bootstrap.{
  Quantity, KubeletConfiguration, kube_reserved_or_default, system_reserved_or_default,
  eviction_hard_or_default,
}

-- The calculations with floating-point numbers: the bytes of memory and disk after the overhead, and
-- `parseThreshold` of a text and the amount that a percentage is of, where `none` is an error.
pub record Floats : Type 0 where
  pub memory_bytes : ℕ → ℕ
  pub disk_bytes : ℕ → ℕ
  pub parse_threshold : String → ℤ → Option ℤ
  -- `%g` of the memory
  pub format_memory : ℕ → String

unfoldable pub capacity : Floats → ℕ → ℕ → ℕ → ℕ → Map ℤ
capacity floats cores memory_gib disk_gb max_pods =
    ("cpu", pos (cores * 1000))
    ∷ ("memory", pos (floats.memory_bytes memory_gib * 1000))
    ∷ ("ephemeral-storage", pos (floats.disk_bytes disk_gb * 1000))
    ∷ ("pods", pos (max_pods * 1000))
    ∷ []

-- `cloudprovider.InstanceTypeOverhead`
pub record InstanceTypeOverhead : Type 0 where
  pub kube_reserved : Map Quantity
  pub system_reserved : Map Quantity
  pub eviction_threshold : Map ℤ

-- `capacity[name]`, where a missing one is the zero quantity.
unfoldable pub amount : Map ℤ → String → ℤ
unfolding lookup
amount rl name = elim (lookup name rl) [ none ↦ pos 0 | some q ↦ q ]

-- A signal of the map, resolved; one that is missing or does not parse is left out.
unfoldable pub threshold : Floats → Map String → Map ℤ → String → String → Map ℤ
unfolding lookup amount
threshold floats eviction_hard cap signal resource = elim (lookup signal eviction_hard) [
  | none ↦ []
  | some v ↦ elim (floats.parse_threshold v (amount cap resource)) [
    | none ↦ []
    | some q ↦ (resource, q) ∷ []
  ]
]

unfoldable pub eviction_threshold : Floats → Map String → Map ℤ → Map ℤ
unfolding threshold
eviction_threshold floats eviction_hard cap =
    threshold floats eviction_hard cap "memory.available" "memory"
    ++ threshold floats eviction_hard cap "nodefs.available" "ephemeral-storage"

unfoldable pub overhead : Floats → KubeletConfiguration → Map ℤ → InstanceTypeOverhead
unfolding eviction_threshold kube_reserved_or_default system_reserved_or_default
    eviction_hard_or_default
overhead floats kubelet cap = record {
  kube_reserved = kube_reserved_or_default kubelet;
  system_reserved = system_reserved_or_default kubelet;
  eviction_threshold = eviction_threshold floats (eviction_hard_or_default kubelet) cap;
}

abbrev pub amounts : Map Quantity → Map ℤ
amounts rl = map (λ entry. (entry.0, entry.1.amount)) rl

-- The inner loop of `Allocatable`.
unfoldable pub subtract : Map ℤ → Map ℤ → Map ℤ
unfolding lookup insert
subtract [] out = out
subtract ((name, q) ∷ sub) out = elim (lookup name out) [
  | none ↦ subtract sub out
  | some cur ↦ subtract sub (insert name (cur -ℤ q) out)
]

unfoldable pub allocatable : Map ℤ → InstanceTypeOverhead → Map ℤ
unfolding subtract
allocatable cap o =
    subtract o.eviction_threshold
      (subtract (amounts o.system_reserved) (subtract (amounts o.kube_reserved) cap))
