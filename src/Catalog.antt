-- ===== src/Catalog.antt =====
-- internal/providers/catalog/catalog.go: the most recent good snapshot of the catalogue.
pub mod Laws
use karpenter_provider_hclou.Base.{
  ℕ, zero, suc, Bool, true, false, Option, none, some, List, [], ◌∷◌, ◌++◌, map, String,
  if◌then◌else◌,
}
use karpenter_provider_hclou.Hcloudapi.Catalog.{Catalog, ServerType, ServerTypeLocation}
use karpenter_provider_hclou.Hcloudapi.Errors.{
  Class, class_fatal, Error, wrapf, Result, ok, err, classify,
}

pub record Snapshot : Type 0 where
  pub generation : ℕ
  pub server_types : List ServerType
  pub primary_ipv4_monthly : ℕ
  pub fetched_at : ℕ

-- The metric `OfferingAvailabilityFlag`: type, location and flag.
abbrev pub Flags : Type 0
Flags = List (String × String × Bool)

-- `Provider` over the state outside: the counter has no upper bound here; `refreshed` is whether the
-- channel, which holds one signal, is full; `reported_stale` and `flags` are the metrics.
pub record Provider (c : Catalog) : Type 0 where
  pub cloud : c.Cloud
  pub generation : ℕ
  pub snapshot : Option Snapshot
  pub stale : Bool
  pub refreshed : Bool
  pub reported_stale : Bool
  pub flags : Flags

unfoldable pub location_flags : String → List ServerTypeLocation → Flags
location_flags name [] = []
location_flags name (l ∷ ls) = (name, l.location, l.available) ∷ location_flags name ls

unfoldable pub type_flags : List ServerType → Flags
unfolding location_flags
type_flags [] = []
type_flags (t ∷ ts) = location_flags t.name t.locations ++ type_flags ts

unfoldable pub is_fatal : Class → Bool
is_fatal class_fatal = true
is_fatal _ = false

module _ {c : Catalog} where
  unfoldable pub get : Provider c → Option Snapshot
  get p = p.snapshot

  -- What `Refresh` does with the server types that it has read.
  unfoldable pub take_over : List ServerType → Provider c → Provider c
  unfolding type_flags
  take_over types p =
      let (r, cloud) = c.primary_ipv4_monthly_net p.cloud in
      let price : ℕ = elim r [ ok price ↦ price | err e ↦ 0 ] in
      record {
        cloud = cloud;
        generation = suc p.generation;
        snapshot = some (record {
          generation = suc p.generation;
          server_types = types;
          primary_ipv4_monthly = price;
          fetched_at = c.now cloud;
        });
        stale = false;
        refreshed = true;
        reported_stale = false;
        flags = type_flags types;
      }

  unfoldable pub refresh : Provider c → Result (Unit {0}) × Provider c
  unfolding take_over
  refresh p =
      let (r, cloud) = c.server_types p.cloud in
      elim r [
        | err e ↦ (
          err (wrapf "refreshing server types: %w" [] e),
          record p { cloud = cloud; stale = true; reported_stale = true },
        )
        | ok types ↦ (ok tt, take_over types (record p { cloud = cloud }))
      ]

  -- The start of `Start`: whether it returns at once, or goes on to the loop.
  unfoldable pub start : Provider c → Result (Unit {0}) × Provider c
  unfolding refresh is_fatal
  start p =
      let (r, p') = refresh p in
      elim r [
        | ok done ↦ (ok tt, p')
        | err e ↦ if is_fatal (classify (some e)) then (err e, p') else (ok tt, p')
      ]

  -- The loop of `Start`, over as many turns as its context lives, each after a pause.
  unfoldable pub run : ℕ → Provider c → Provider c
  unfolding refresh
  run zero p = p
  run (suc turns) p = run turns (refresh p).1
