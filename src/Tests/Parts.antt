-- ===== src/Tests/Parts.antt =====
-- The smaller parts: suppressed offerings, labels, ids, error classes and the catalogue.
use karpenter_provider_hclou.Base.{
  ℕ, ◌≡◌, refl, true, false, some, [], ◌∷◌, string_comparable, arith,
}
use karpenter_provider_hclou.Catalog.{Snapshot, Provider, get, run}
use karpenter_provider_hclou.Catalog.Laws.{IsCurrent, Follows, run-Follows}
use karpenter_provider_hclou.Hcloudapi.Catalog.{Catalog}
use karpenter_provider_hclou.Hcloudapi.Errors.{conflict, errorf, ok, err}
use karpenter_provider_hclou.Hcloudapi.ProviderId.{provider_id, server_id_from_provider_id}
use karpenter_provider_hclou.Hcloudapi.ProviderId.RoundTrip.{server_id-provider_id}
use karpenter_provider_hclou.Instancetype.Unavailable.{Entry, Unavailable}

abbrev entry : Entry
entry = record { server_type = "cx22"; location = "fsn1"; until = 300; code = conflict }

abbrev cache : Unavailable
cache = record { ttl = 300; items = entry ∷ [] }

server_id-provider_id_example : server_id_from_provider_id (provider_id 424242) ≡ ok 424242
server_id-provider_id_example = server_id-provider_id 424242 (omega arith) (omega arith)

-- A catalogue that never answers.
abbrev down : Catalog
down = record {
  Cloud = ℕ;
  now = λ c. c;
  server_types = λ c. (err (errorf "timeout" []), c);
  primary_ipv4_monthly_net = λ c. (err (errorf "timeout" []), c);
}

abbrev last_good : Snapshot
last_good = record { generation = 1; server_types = []; primary_ipv4_monthly = 0; fetched_at = 5 }

abbrev serving : Provider down
serving = record {
  cloud = 7;
  generation = 1;
  snapshot = some last_good;
  stale = false;
  refreshed = true;
  reported_stale = false;
  flags = [];
}

serving-IsCurrent : IsCurrent down serving last_good
unfolding get
serving-IsCurrent = record { served = refl; counted = refl }

run-Follows_example : (t : Snapshot) × IsCurrent down (run 3 serving) t × Follows down last_good t
run-Follows_example = run-Follows down 3 serving last_good serving-IsCurrent
