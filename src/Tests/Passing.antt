-- ===== src/Tests/Passing.antt =====
-- Passes of the NodeClass controller.
use karpenter_provider_hclou.Base.{ℕ, true, false, ◌↔◌, ◌≡◌, refl, none, [], ◌∷◌, string_comparable}
use karpenter_provider_hclou.Api.NodeClass.{SelectorTerm}
use karpenter_provider_hclou.Bootstrap.ClusterInfo.{Decoding, unread}
use karpenter_provider_hclou.Controllers.Nodeclass.Reconciler.{
  patched, conflict, Object, Answers, reconcile,
}
use karpenter_provider_hclou.Controllers.Nodeclass.Reconciler.Gate.{
  IsReleased, reconcile-IsReleased_iff,
}
use karpenter_provider_hclou.Controllers.Nodeclass.Reconciler.Kept.{IsDown}
use karpenter_provider_hclou.Controllers.Nodeclass.Reconciler.Outage.{
  IsWeathered, reconcile-IsWeathered,
}
use karpenter_provider_hclou.Controllers.Nodeclass.Resolve.{config_failure}
use karpenter_provider_hclou.Base.Map.{lookup}
use karpenter_provider_hclou.Controllers.Nodeclass.Validation.{is_true, Condition, condition}
use karpenter_provider_hclou.Hcloudapi.Errors.{
  errorf, Error, Result, is_not_found, classify, ok, err,
}
use karpenter_provider_hclou.Tests.Resolving.{subject}

-- A NodeClass whose resolvers were True when Hetzner's API went down.
abbrev good : Condition
good = record {
  status = is_true;
  reason = "Ready";
  message = ("", [], []);
  observed_generation = 2;
}

abbrev resolved : Object
resolved = record {
  subject = record subject {
    conditions =
        ("ImageReady", good)
        ∷ ("NetworkReady", good)
        ∷ ("FirewallsReady", good)
        ∷ ("SSHKeysReady", good)
        ∷ ("PlacementGroupReady", good)
        ∷ [];
  };
  finalizer = true;
  waiting = [];
}

abbrev unreachable : Error
unreachable = errorf "connection refused" []

abbrev down : {A : Type 0} → SelectorTerm → Result A
down sel = err unreachable

-- Packages that decode nothing.
abbrev undecoded : Decoding
undecoded = record {
  PublicKey = ℕ;
  load = λ raw. err unreachable;
  parse_url = λ server. err unreachable;
  decode = λ bytes. none;
  parse_certificate = λ der. err unreachable;
  marshal_key = λ key. err unreachable;
  sum256 = λ bytes. bytes;
}

abbrev outage : Answers
outage = record {
  node_claims = ok [];
  removal = patched;
  addition = patched;
  resources = record {
    image = down;
    network = down;
    firewall = down;
    ssh_key = down;
    placement_group = down;
  };
  decoding = undecoded;
  cluster_info = unread (record {
    error = unreachable;
    is_not_found = false;
    is_forbidden = true;
    is_unauthorized = false;
    is_bad_request = false;
  });
  discovery = record { endpoint = ""; hashes = [] };
  catalog = none;
  is_same = λ s s'. false;
  status = conflict;
  min = λ results. 0;
}

is_down : {A : Type 0} → IsDown (down {A = A})
unfolding config_failure is_not_found classify
is_down sel = (unreachable, refl, refl)

reconcile-IsWeathered_example : IsWeathered (reconcile outage resolved)
unfolding lookup condition
reconcile-IsWeathered_example =
    reconcile-IsWeathered outage resolved refl refl (is_down, is_down, is_down, is_down, is_down)
      (refl, refl, refl, refl, refl)

abbrev doomed : Object
doomed = record resolved {
  subject = record resolved.subject { node_class = record subject.node_class { deleting = true } };
}

reconcile-IsReleased_iff_example :
    ((reconcile outage doomed).1.finalizer ≡ false)
    ↔ ((doomed.subject.node_class.deleting ≡ true) × IsReleased outage.node_claims outage.removal)
reconcile-IsReleased_iff_example = reconcile-IsReleased_iff outage doomed refl

-- A NodeClaim that is still there blocks the deletion.
blocked :
    (reconcile (record outage { node_claims = ok ("b" ∷ "a" ∷ []) }) doomed).1.waiting
    ≡ ("a" ∷ "b" ∷ []) ∷ []
unfolding reconcile
blocked = refl
