-- ===== src/Instance/World.antt =====
-- The state of `instance.Provider` (internal/providers/instance/instance.go and list.go): what it
-- shares with the rest of the program, and the metrics that it has recorded.
use karpenter_provider_hclou.Base.{ℕ, ◌*◌, Option, none, List, [], ◌∷◌, String}
use karpenter_provider_hclou.Hcloudapi.Errors.{ErrorCode, Class, Error, errorf}
use karpenter_provider_hclou.Hcloudapi.Servers.{Server, Servers}
use karpenter_provider_hclou.Instancetype.Unavailable.{Unavailable}

-- `listCache`; `cached` is `none` for the nil slice.
pub record ListCache : Type 0 where
  pub cached : Option (List (Option Server))
  pub fetched_at : ℕ

abbrev pub default_list_ttl : ℕ
default_list_ttl = 30 * 1_000_000_000

unfoldable pub new_list_cache : ListCache
new_list_cache = record { cached = none; fetched_at = 0 }

-- The calls on package metrics, without the measured durations.
pub data Metric : Type 0 where
  launch_duration : String → String → String → Metric
  launch_failure : String → String → Class → Metric
  unknown_error_code : ErrorCode → Metric
  offering_unavailable : String → String → ErrorCode → Metric

-- `metrics` lists the latest first.
pub record World (s : Servers) : Type 0 where
  pub cloud : s.Cloud
  pub unavailable : Unavailable
  pub cache : ListCache
  pub metrics : List Metric

abbrev pub err_no_cluster_name : Error
err_no_cluster_name = errorf "cluster name is empty, refusing to act on unowned servers" []

module _ {s : Servers} where
  -- `invalidate`
  unfoldable pub invalidate : World s → World s
  invalidate w = record w { cache = record { cached = none; fetched_at = 0 } }

  unfoldable pub observe : Metric → World s → World s
  observe m w = record w { metrics = m ∷ w.metrics }
