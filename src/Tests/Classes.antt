-- ===== src/Tests/Classes.antt =====
-- NodeClasses: drift, validation, hashes, and the claims that karpenter gets.
use karpenter_provider_hclou.Base.{
  ◌*◌, ◌≡◌, ◌≢◌, refl, inl, true, false, Option, none, some, List, [], ◌∷◌, String,
  string_comparable,
}
use karpenter_provider_hclou.Base.Map.{lookup, get}
use karpenter_provider_hclou.Base.Sort.{sort_stable}
use karpenter_provider_hclou.Api.Hash.{annotation_hash, annotation_hash_version, hash_version}
use karpenter_provider_hclou.Api.NodeClass.{
  HCloudNodeClass, HCloudNodeClassSpec, public_ipv4_enabled, public_ipv6_enabled,
}
use karpenter_provider_hclou.Cloudprovider.{CloudProvider, create, resolve_node_class}
use karpenter_provider_hclou.Cloudprovider.Claims.{to_node_claim}
use karpenter_provider_hclou.Cloudprovider.Drift.{
  no_drift, node_class_drift, node_class_key, server_drift, is_drifted, is_no_drift,
}
use karpenter_provider_hclou.Cloudprovider.Drift.Laws.{
  AsOrdered, server_drift-fresh, From, is_drifted-From,
}
use karpenter_provider_hclou.Cloudprovider.Laws.{Launched, create-Launched}
use karpenter_provider_hclou.Hcloudapi.Errors.{Result, ok, classify, is_unknown_code}
use karpenter_provider_hclou.Hcloudapi.Servers.{Server, CreateServerRequest}
use karpenter_provider_hclou.Instance.Candidates.{has_candidates, ordered_candidates}
use karpenter_provider_hclou.Instance.Create as Launch
use karpenter_provider_hclou.Instancetype.Unavailable.{mark}
use karpenter_provider_hclou.Instance.Request.{base_request, request_labels}
use karpenter_provider_hclou.Instance.World.{World, observe}
use karpenter_provider_hclou.Karpenter.{NodeClaim, InstanceType}
use karpenter_provider_hclou.Tests.Memory.{
  memory, made, cluster, world, lenient, cx22, claim, node_class, second,
}

abbrev order : CreateServerRequest
order = record {
  name = "claim-1";
  server_type = "";
  location = "";
  image_id = 5;
  ssh_key_ids = [];
  network_ids = 3 ∷ [];
  firewall_ids = 1 ∷ 2 ∷ [];
  placement_group_id = none;
  user_data = "";
  labels = request_labels cluster node_class claim;
  public_ipv4 = true;
  public_ipv6 = true;
}

abbrev running : Server
running = made (record order { server_type = "cx22"; location = "fsn1" }) 9 (2000 * second)

running-AsOrdered : AsOrdered order running
running-AsOrdered = record {
  networks = refl;
  firewalls = refl;
  placement = refl;
  ipv4 = refl;
  ipv6 = refl;
  image = refl;
}

server_drift-fresh_example : server_drift node_class running ≡ no_drift
unfolding base_request public_ipv4_enabled public_ipv6_enabled
server_drift-fresh_example =
    server_drift-fresh node_class cluster "" claim order running
      (record { name = "fsn1"; network_zone = "eu-central" }) refl running-AsOrdered (inl refl) refl

-- A claim that was launched from another spec.
abbrev outdated : NodeClaim (Option String)
outdated = record claim {
  annotations = (annotation_hash_version, hash_version) ∷ (annotation_hash, "old") ∷ [];
}

abbrev read : String → Result HCloudNodeClass
read name = ok node_class

is_drifted-From_example :
    (outdated.provider_id ≢ "")
    × (nc : HCloudNodeClass) × (read (node_class_key outdated) ≡ ok nc)
    × (nc.deleting ≡ false)
    × (nc.ready ≡ true)
    × From memory (Option String) cluster read node_class_drift nc outdated world world
unfolding is_drifted get lookup is_no_drift
is_drifted-From_example =
    is_drifted-From memory (Option String) cluster read outdated world world node_class_drift refl
      (λ e. cc)

abbrev constant : HCloudNodeClassSpec → String
constant s = "h"

abbrev provider : List (InstanceType (Option String)) → CloudProvider lenient memory
provider types = record {
  cluster_name = cluster;
  get_node_class = read;
  build = λ nc u. some types;
  render = λ nc c m. (ok "#cloud-config", m);
  hash = constant;
  capacity_for = λ t. none;
}

-- What a launch of `claim` hands back.
abbrev outcome : Result (NodeClaim (Option String)) × World memory
outcome = create (provider (cx22 ∷ [])) claim world

abbrev ordered : CreateServerRequest
ordered = record order { server_type = "cx22"; location = "nbg1"; user_data = "#cloud-config" }

abbrev handed : NodeClaim (Option String)
handed =
    to_node_claim lenient constant (made ordered 9 (2000 * second)) (some cx22) claim node_class

create-Launched_example :
    (ref : String) × (nc : HCloudNodeClass) × (types : List (InstanceType (Option String)))
    × (claim.node_class_ref ≡ some ref)
    × ((provider (cx22 ∷ [])).get_node_class ref ≡ ok nc)
    × (nc.ready ≡ true)
    × (nc.deleting ≡ false)
    × ((provider (cx22 ∷ [])).build nc world.unavailable ≡ some types)
    × Launched lenient memory (provider (cx22 ∷ [])) claim nc types handed world outcome.1
unfolding create Launch.create sort_stable classify observe lookup base_request is_unknown_code
    public_ipv4_enabled public_ipv6_enabled get mark ordered_candidates has_candidates
create-Launched_example =
    create-Launched lenient memory (provider (cx22 ∷ [])) claim handed world outcome.1 refl
