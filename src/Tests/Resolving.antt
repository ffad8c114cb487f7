-- ===== src/Tests/Resolving.antt =====
-- The resolvers of a NodeClass.
use karpenter_provider_hclou.Base.{
  ◌≡◌, refl, none, some, [], ◌∷◌, String, ◌==◌, if◌then◌else◌, string_comparable,
}
use karpenter_provider_hclou.Api.NodeClass.{
  FirewallStatus, SshKeyStatus, NetworkStatus, PlacementGroupStatus, SelectorTerm,
}
use karpenter_provider_hclou.Controllers.Nodeclass.Firewalls as Firewalls
use karpenter_provider_hclou.Controllers.Nodeclass.Firewalls.Closed.{
  AllOrNothing, reconcile-AllOrNothing,
}
use karpenter_provider_hclou.Controllers.Nodeclass.Resolve.{reads_of}
use karpenter_provider_hclou.Controllers.Nodeclass.Single.{reconcile_placement_group}
use karpenter_provider_hclou.Controllers.Nodeclass.SshKeys as SshKeys
use karpenter_provider_hclou.Controllers.Nodeclass.SshKeys.Tolerance.{
  OpenForDeleted, reconcile-OpenForDeleted,
}
use karpenter_provider_hclou.Base.Map.{lookup, insert}
use karpenter_provider_hclou.Controllers.Nodeclass.Validation.{Subject, condition}
use karpenter_provider_hclou.Hcloudapi.Errors.{
  api_error, not_found, forbidden, Result, is_not_found, classify, ok, err,
}
use karpenter_provider_hclou.Tests.Memory.{node_class}

abbrev selector : String → SelectorTerm
selector name = record { name = name; id = none }

-- A NodeClass with two firewalls, two keys, a network and a placement group.
abbrev pub subject : Subject
subject = record {
  node_class = record node_class {
    spec = record node_class.spec {
      firewall_selectors = selector "web" ∷ selector "ssh" ∷ [];
      ssh_key_selectors = selector "gone" ∷ selector "alice" ∷ [];
      network_selector = some (selector "bare");
      placement_group = some (selector "spread");
    };
  };
  generation = 2;
  conditions = [];
  events = [];
}

abbrev firewall : SelectorTerm → Result FirewallStatus
firewall sel =
    if sel.name == "web"
    then ok (record { id = 1; name = "web" })
    else err (not_found "firewall" sel.name)

abbrev ssh_key : SelectorTerm → Result SshKeyStatus
ssh_key sel =
    if sel.name == "alice"
    then ok (record { id = 5; name = "alice"; fingerprint = "aa" })
    else err (not_found "ssh key" sel.name)

-- A token that may read one key only.
abbrev refused : SelectorTerm → Result SshKeyStatus
refused sel =
    if sel.name == "alice"
    then err (api_error forbidden "no")
    else err (not_found "ssh key" sel.name)

abbrev network : SelectorTerm → Result NetworkStatus
network sel = ok (record { id = 3; name = sel.name; zone = "" })

abbrev full_group : SelectorTerm → Result PlacementGroupStatus
full_group sel = ok (record { id = 4; name = sel.name; server_count = 10 })

reconcile-AllOrNothing_example :
    AllOrNothing
      (reads_of firewall subject.node_class.spec.firewall_selectors)
      subject
      (Firewalls.reconcile firewall subject)
reconcile-AllOrNothing_example = reconcile-AllOrNothing firewall subject

reconcile-OpenForDeleted_example :
    OpenForDeleted
      (reads_of ssh_key subject.node_class.spec.ssh_key_selectors)
      subject
      (SshKeys.reconcile ssh_key subject)
reconcile-OpenForDeleted_example = reconcile-OpenForDeleted ssh_key subject

-- A missing firewall takes all firewalls; a deleted key takes itself, a refused one all keys.
one_firewall_missing : (Firewalls.reconcile firewall subject).1.node_class.status.firewalls ≡ []
unfolding Firewalls.reconcile is_not_found
one_firewall_missing = refl

one_key_gone :
    (SshKeys.reconcile ssh_key subject).1.node_class.status.ssh_keys
    ≡ record { id = 5; name = "alice"; fingerprint = "aa" } ∷ []
unfolding SshKeys.reconcile is_not_found lookup
one_key_gone = refl

one_key_refused :
    (condition (SshKeys.reconcile refused subject).1 "SSHKeysReady").reason
    ≡ "SSHKeyCredentialRejected"
unfolding SshKeys.reconcile condition lookup is_not_found classify insert
one_key_refused = refl

group_at_capacity :
    (condition (reconcile_placement_group full_group subject).1 "PlacementGroupReady").reason
    ≡ "PlacementGroupAtCapacity"
unfolding reconcile_placement_group condition lookup insert
group_at_capacity = refl
