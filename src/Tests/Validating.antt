-- ===== src/Tests/Validating.antt =====
-- Validation of a NodeClass, and the back-fill of hashes after an upgrade.
use mathlib.Core.Path.{subst}
use karpenter_provider_hclou.Base.{
  ◌≡◌, ◌≢◌, ◌↔◌, refl, inl, inr, true, false, Option, none, some, [], ◌∷◌, String, Has, is_empty,
  sym, eq_iff, ap, ◌∙◌, ◌==◌, string_comparable, if◌then◌else◌,
}
use karpenter_provider_hclou.Base.Map.{lookup, insert, get}
use karpenter_provider_hclou.Api.Hash.{annotation_hash_version, hash_version}
use karpenter_provider_hclou.Api.NodeClass.{HCloudNodeClassSpec, ImageStatus, LocationStatus}
use karpenter_provider_hclou.Catalog.{Snapshot}
use karpenter_provider_hclou.Controllers.Nodeclass.Hash.{done, Claim, Store, Answers}
use karpenter_provider_hclou.Controllers.Nodeclass.Hash as Hashing
use karpenter_provider_hclou.Controllers.Nodeclass.Hash.Upgrade.{Quiet, reconcile-Quiet}
use karpenter_provider_hclou.Controllers.Nodeclass.Scope.{
  location_scope, catalog_zones, location_names, network_zone_of, is_sold, location_zones, excluded,
  zone_conflicts,
}
use karpenter_provider_hclou.Controllers.Nodeclass.Scope.Partition.{IsConsistent, IsWanted, IsNear, OfferedAt, location_scope_iff}
use karpenter_provider_hclou.Controllers.Nodeclass.Scope.Offered.{Offers}
use karpenter_provider_hclou.Controllers.Nodeclass.Validation.{
  is_true, is_unknown, Condition, Subject, condition, required_conditions, has_foreign_architecture,
  is_fetched, reconcile,
}
use karpenter_provider_hclou.Controllers.Nodeclass.Validation.Verdicts.{
  status_of, IsResolved, IsNative, reconcile-true, reconcile-blind,
}
use karpenter_provider_hclou.Hcloudapi.Catalog.{ServerType, ServerTypeLocation}
use karpenter_provider_hclou.Tests.Memory.{node_class, claim}

abbrev cx22_type : ServerType
cx22_type = record {
  id = 1;
  name = "cx22";
  cores = 2;
  memory_gib = 4;
  disk_gb = 40;
  architecture = "x86";
  cpu_type = "shared";
  storage_type = "local";
  deprecated = false;
  prices = [];
  locations =
      record {
        location = "fsn1";
        network_zone = "eu-central";
        available = true;
        recommended = true;
        deprecated = false;
      }
      ∷ record {
        location = "ash";
        network_zone = "us-east";
        available = true;
        recommended = true;
        deprecated = false;
      }
      ∷ [];
}

abbrev fetched : Option Snapshot
fetched = some (record {
  generation = 1;
  server_types = cx22_type ∷ [];
  primary_ipv4_monthly = 0;
  fetched_at = 0;
})

abbrev in_fsn1 : LocationStatus
in_fsn1 = record { name = "fsn1"; network_zone = "eu-central" }

-- The two locations of the only type have names of their own.
consistent : IsConsistent fetched
consistent a b (st, inl e, _, _, at_a, _) (tt', inl f, _, _, at_b, _) same =
    zone_of a (subst (λ t. Has a t.locations) e at_a) b (subst (λ t. Has b t.locations) f at_b) same
  where
    zone : String → String
    zone name = if name == "ash" then "us-east" else "eu-central"

    known :
        (l : ServerTypeLocation) → Has l cx22_type.locations → l.network_zone ≡ zone l.location
    known l (inl e) = subst (λ k. k.network_zone ≡ zone k.location) (sym e) refl
    known l (inr (inl e)) = subst (λ k. k.network_zone ≡ zone k.location) (sym e) refl
    known l (inr (inr out)) = absurd out

    zone_of :
        (a : ServerTypeLocation)
        → Has a cx22_type.locations
        → (b : ServerTypeLocation)
        → Has b cx22_type.locations
        → a.location ≡ b.location
        → a.network_zone ≡ b.network_zone
    zone_of a m b n same = known a m ∙ (ap zone same ∙ sym (known b n))
consistent a b (st, inr m, _, _, _, _) y same = absurd m
consistent a b (st, inl e, _, _, _, _) (k, inr n, _, _, _, _) same = absurd n

location_scope_iff_example : Has in_fsn1 (location_scope fetched node_class).split.in_scope ↔ (
    IsWanted node_class "fsn1" × OfferedAt fetched in_fsn1 × IsNear node_class "eu-central")
location_scope_iff_example = location_scope_iff fetched node_class in_fsn1 consistent

in_scope : Has in_fsn1 (location_scope fetched node_class).split.in_scope
unfolding location_scope lookup insert location_zones is_sold zone_conflicts
in_scope = inl refl

abbrev good : Condition
good = record {
  status = is_true;
  reason = "Resolved";
  message = ("", [], []);
  observed_generation = 4;
}

abbrev subject : Subject
subject = record {
  node_class = node_class;
  generation = 4;
  conditions =
      ("ImageReady", good)
      ∷ ("NetworkReady", good)
      ∷ ("FirewallsReady", good)
      ∷ ("SSHKeysReady", good)
      ∷ ("PlacementGroupReady", good)
      ∷ ("BootstrapDiscoveryReady", good)
      ∷ [];
  events = [];
}

all-IsResolved : (name : String) → Has name required_conditions → IsResolved subject name
unfolding condition lookup
all-IsResolved name (inl e) = subst (IsResolved subject) (sym e) (refl, refl)
all-IsResolved name (inr (inl e)) = subst (IsResolved subject) (sym e) (refl, refl)
all-IsResolved name (inr (inr (inl e))) = subst (IsResolved subject) (sym e) (refl, refl)
all-IsResolved name (inr (inr (inr (inl e)))) = subst (IsResolved subject) (sym e) (refl, refl)
all-IsResolved name (inr (inr (inr (inr (inl e))))) =
    subst (IsResolved subject) (sym e) (refl, refl)
all-IsResolved name (inr (inr (inr (inr (inr (inl e)))))) =
    subst (IsResolved subject) (sym e) (refl, refl)
all-IsResolved name (inr (inr (inr (inr (inr (inr out)))))) = absurd out

reconcile-true_example :
    ((name : String) → Has name required_conditions → IsResolved subject name)
    × (has_foreign_architecture node_class ≡ false)
    × (is_fetched fetched ≡ true)
    × (is_empty (location_scope fetched node_class).split.in_scope ≡ false)
    × ((reconcile fetched subject).1.node_class.status.locations
        ≡ (location_scope fetched node_class).split.in_scope)
unfolding reconcile location_scope condition lookup insert excluded location_zones is_sold
    zone_conflicts
reconcile-true_example = reconcile-true fetched subject refl

-- The type of the catalogue, being phased out.
abbrev emptied : Option Snapshot
emptied = some (record {
  generation = 2;
  server_types = record cx22_type { deprecated = true } ∷ [];
  primary_ipv4_monthly = 0;
  fetched_at = 0;
})

native : IsNative node_class
native img e = inr (sym (ap architecture_of e))
  where
    architecture_of : Option ImageStatus → String
    architecture_of none = ""
    architecture_of (some img) = img.architecture


reconcile-blind_example :
    (((l : ServerTypeLocation) → ¬ Offers emptied l)
      → (status_of (reconcile emptied subject) ≡ is_unknown)
        × ((reconcile emptied subject).1.node_class.status.locations ≡ []))
    × ((l : ServerTypeLocation)
      → Offers emptied l
      → status_of (reconcile emptied subject) ≢ is_unknown)
reconcile-blind_example = reconcile-blind emptied subject all-IsResolved native

nothing_offered : (l : ServerTypeLocation) → ¬ Offers emptied l
nothing_offered l (st, inl e, current, _, _, _) = clash (sym (ap (λ t. t.deprecated) e) ∙ current)
  where
    clash : true ≡ false → ⊥
    clash p = cc
nothing_offered l (st, inr m, _, _, _, _) = m

emptied_unknown : status_of (reconcile emptied subject) ≡ is_unknown
emptied_unknown = (reconcile-blind_example.0 nothing_offered).0

abbrev answers : Answers
answers = record { to_list = none; to_claim = λ name. done; to_class = done }

abbrev old_claim : Claim (Option String)
old_claim = record { node_claim = claim; drifted = false }

abbrev old_store : Store (Option String)
old_store = record { node_class = record node_class { annotations = [] }; claims = old_claim ∷ [] }

abbrev new_hash : HCloudNodeClassSpec → String
new_hash s = "new"

unstamped : get [] annotation_hash_version ≢ hash_version
unfolding get lookup
unstamped e = absurd (wrong ((eq_iff "" "v1").1 e))
  where
    wrong : false ≢ true
    wrong e = cc

reconcile-Quiet_example : Quiet answers old_claim (Hashing.reconcile new_hash answers old_store).1
unfolding get
reconcile-Quiet_example =
    reconcile-Quiet answers new_hash old_claim old_store unstamped (inl refl) refl unstamped
