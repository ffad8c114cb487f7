-- ===== src/Controllers/Nodeclass/Validation.antt =====
-- internal/controllers/nodeclass/validation.go: `Reconcile`, which checks the resolved parts of a
-- NodeClass against each other. A message is its format with its arguments.
pub mod Verdicts
use karpenter_provider_hclou.Base.{
  ℕ, ◌*◌, Bool, true, false, ◌&&◌, ◌||◌, not, Option, none, some, List, [], ◌∷◌, ◌++◌, String,
  is_empty, if◌then◌else◌, ◌==◌, nat_comparable, string_comparable,
}
use karpenter_provider_hclou.Base.Map.{Map, lookup, insert}
use karpenter_provider_hclou.Api.NodeClass.{HCloudNodeClass, LocationStatus, ImageStatus}
use karpenter_provider_hclou.Catalog.{Snapshot}
use karpenter_provider_hclou.Controllers.Nodeclass.Scope.{
  Scope, supported_architecture, location_scope, empty_failure, excluded, outside_part,
}

abbrev pub resolved_requeue : ℕ
resolved_requeue = 5 * 60 * 1_000_000_000

abbrev pub misconfigured_requeue : ℕ
misconfigured_requeue = 60 * 1_000_000_000

pub data Status : Type 0 where
  is_true is_false is_unknown : Status

abbrev pub Message : Type 0
Message = String × List String × List String

-- A condition, as operatorpkg keeps it, without the time of its last transition.
pub record Condition : Type 0 where
  pub status : Status
  pub reason : String
  pub message : Message
  pub observed_generation : ℕ

-- What the reconciler changes: the NodeClass, its conditions, and the events it has published, the
-- latest first.
pub record Subject : Type 0 where
  pub node_class : HCloudNodeClass
  pub generation : ℕ
  pub conditions : Map Condition
  pub events : List Message

abbrev pub validation_succeeded : String
validation_succeeded = "ValidationSucceeded"

-- `requiredConditions`
abbrev pub required_conditions : List String
required_conditions =
    "ImageReady" ∷ "NetworkReady" ∷ "FirewallsReady" ∷ "SSHKeysReady" ∷ "PlacementGroupReady"
    ∷ "BootstrapDiscoveryReady" ∷ []

-- `conds.Get`: a condition that was never set is Unknown.
unfoldable pub condition : Subject → String → Condition
condition s name = elim (lookup name s.conditions) [
  | none ↦ record {
    status = is_unknown;
    reason = "AwaitingReconciliation";
    message = ("object is awaiting reconciliation", [], []);
    observed_generation = s.generation;
  }
  | some cond ↦ cond
]

unfoldable pub is_failed : Condition → Bool
is_failed cond = elim (cond.status) [ is_false ↦ true | _ ↦ false ]

unfoldable pub is_pending : ℕ → Condition → Bool
is_pending generation cond = elim (cond.status) [
  | is_true ↦ not (cond.observed_generation == generation)
  | is_false ↦ false
  | is_unknown ↦ true
]

-- The names that a test picks out: `failed` and `pending`.
unfoldable pub pick : (Condition → Bool) → Subject → List String → List String
pick test s [] = []
pick test s (name ∷ names) =
    let rest = pick test s names in if test (condition s name) then name ∷ rest else rest

-- The set operations on `conds`, which record the generation.
unfoldable pub set : Status → String → Message → Subject → Subject
set status reason message s = record s {
  conditions =
      insert validation_succeeded
        (record {
          status = status;
          reason = reason;
          message = message;
          observed_generation = s.generation;
        })
        s.conditions;
}

unfoldable pub set_locations : List LocationStatus → Subject → Subject
set_locations locations s = record s {
  node_class = record s.node_class {
    status = record s.node_class.status { locations = locations };
  };
}

-- A return that withdraws the locations.
unfoldable pub withdraw : Status → String → Message → Subject → ℕ × Subject
unfolding set set_locations
withdraw status reason message s =
    (misconfigured_requeue, set status reason message (set_locations [] s))

unfoldable pub has_foreign_architecture : HCloudNodeClass → Bool
has_foreign_architecture node_class = elim (node_class.status.image) [
  | none ↦ false
  | some img ↦ not (img.architecture == "") && not (img.architecture == supported_architecture)
]

-- `firstTime` is false: the condition says so already.
unfoldable pub is_known : Message → Condition → Bool
is_known (_, outside, unknown) cond =
    let (_, said_outside, said_unknown) = cond.message in
    cond.reason == "LocationsNarrowed" && (same said_outside outside && same said_unknown unknown)
  where
    same : List String → List String → Bool
    same [] [] = true
    same [] (y ∷ ys) = false
    same (x ∷ xs) [] = false
    same (x ∷ xs) (y ∷ ys) = x == y && same xs ys

-- The end of `Reconcile`, with locations to offer.
unfoldable pub accept : Scope → Subject → ℕ × Subject
unfolding set set_locations is_known
accept scope s =
    let s' = set_locations scope.split.in_scope s in
    elim (excluded scope) [
      | none ↦ (resolved_requeue, set is_true validation_succeeded ("", [], []) s')
      | some (outside, unknown) ↦
          let message : Message = ("spec.locations was narrowed", outside, unknown) in
          let s'' = set is_true "LocationsNarrowed" message s' in
          (
            resolved_requeue,
            (if is_known message (condition s validation_succeeded)
                then s''
                else record s'' { events = message ∷ s''.events }),
          )
    ]

unfoldable pub is_fetched : Option Snapshot → Bool
is_fetched none = false
is_fetched (some snapshot) = true

-- The decision on a scope, by whether the catalogue was fetched and whether it offers no location.
unfoldable pub conclude : Bool → Bool → Scope → Subject → ℕ × Subject
unfolding withdraw accept
conclude fetched catalog_empty scope s =
    if not fetched || catalog_empty
    then withdraw is_unknown (if fetched then "CatalogEmpty" else "CatalogNotFetched")
        ("catalog", [], []) s
    else if is_empty scope.split.in_scope
    then withdraw is_false (empty_failure scope)
        ("no location is usable", outside_part scope, scope.split.unknown) s
    else accept scope s

-- `Reconcile` from the catalogue on.
unfoldable pub place_nodes : Option Snapshot → Subject → ℕ × Subject
unfolding conclude is_fetched
place_nodes snapshot s =
    let scope = location_scope snapshot s.node_class in
    conclude (is_fetched snapshot) scope.catalog_empty scope s

unfoldable pub reconcile : Option Snapshot → Subject → ℕ × Subject
unfolding pick is_failed is_pending withdraw has_foreign_architecture place_nodes
reconcile snapshot s =
    let failed = pick is_failed s required_conditions in
    let pending = pick (is_pending s.generation) s required_conditions in
    if not (is_empty failed)
    then withdraw is_false "DependenciesNotReady" ("awaiting %s", failed, []) s
    else if not (is_empty pending)
    then withdraw is_unknown "DependenciesNotReady" ("awaiting %s", pending, []) s
    else if has_foreign_architecture s.node_class
    then withdraw is_false "ImageArchitectureUnsupported"
        ("image architecture %q is not %q", [], []) s
    else place_nodes snapshot s
