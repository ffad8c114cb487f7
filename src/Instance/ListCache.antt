-- ===== src/Instance/ListCache.antt =====
-- internal/providers/instance/list.go: one recent listing for every caller. Here one caller runs at
-- a time; what a cancelled context, the timeout and a recovered panic do is an error of `Servers.list`.
pub mod Race
use karpenter_provider_hclou.Base.{
  ℕ, Bool, true, false, Option, none, some, List, String, elapsed_lt, if◌then◌else◌,
}
use karpenter_provider_hclou.Hcloudapi.Errors.{Result, ok, err}
use karpenter_provider_hclou.Hcloudapi.Servers.{Server, Servers}
use karpenter_provider_hclou.Instance.World.{ListCache, World, default_list_ttl}

-- `c.cached != nil && c.now().Sub(c.fetchedAt) < c.ttl`: the listing, if it is fresh.
unfoldable pub fresh : ListCache → ℕ → Option (List (Option Server))
fresh c now = elim c.cached [
  | none ↦ none
  | some servers ↦ if elapsed_lt now c.fetched_at default_list_ttl then some servers else none
]

module _ {s : Servers} where
  -- `c.cached, c.fetchedAt = servers, c.now()`
  unfoldable pub store : List (Option Server) → World s → World s
  store servers w = record w {
    cache = record { cached = some servers; fetched_at = s.now w.cloud };
  }

  -- The function that `DoChan` runs.
  unfoldable pub flight : String × String → World s → Result (List (Option Server)) × World s
  unfolding fresh store
  flight selector w = elim (fresh w.cache (s.now w.cloud)) [
    | some cached ↦ (ok cached, w)
    | none ↦
        let (r, cloud) = s.list selector w.cloud in
        let w' = record w { cloud = cloud } in
        elim r [ err e ↦ (err e, w') | ok servers ↦ (ok servers, store servers w') ]
  ]

  unfoldable pub list : String × String → World s → Result (List (Option Server)) × World s
  unfolding flight
  list selector w = elim (fresh w.cache (s.now w.cloud)) [
    | some cached ↦ (ok cached, w)
    | none ↦ flight selector w
  ]
