-- ===== src/Tests/Launching.antt =====
-- Launches: a claim that is ordered in its second location, since the first is sold out.
use mathlib.Core.List.{Permᴰ}
use karpenter_provider_hclou.Base.{
  ◌*◌, ◌≡◌, ◌≢◌, ◌↔◌, refl, true, Option, none, some, List, [], ◌∷◌, String, Has, map, take,
}
use karpenter_provider_hclou.Base.Map.{lookup, get}
use karpenter_provider_hclou.Base.Sort.{sort_stable}
use karpenter_provider_hclou.Api.NodeClass.{public_ipv4_enabled, public_ipv6_enabled}
use karpenter_provider_hclou.Instancetype.Unavailable.{mark}
use karpenter_provider_hclou.Base.Sort.Laws.{IsSorted}
use karpenter_provider_hclou.Hcloudapi.Errors.{ok, classify, is_unknown_code}
use karpenter_provider_hclou.Hcloudapi.Labels.{label_managed_by, label_node_claim, label_node_pool}
use karpenter_provider_hclou.Hcloudapi.Servers.{Server, CreateServerRequest}
use karpenter_provider_hclou.Instance.Candidates.{Candidate, less, key, ordered_candidates}
use karpenter_provider_hclou.Instance.Candidates.Members.{Served}
use karpenter_provider_hclou.Instance.Candidates.Order.{ordered_candidates-ranks}
use karpenter_provider_hclou.Instance.Create.{create}
use karpenter_provider_hclou.Instance.Create.Outcome.{Handed, create-Handed}
use karpenter_provider_hclou.Instance.Create.Walk.{Ends, create-Ends}
use karpenter_provider_hclou.Instance.Request.{base_request, request_labels}
use karpenter_provider_hclou.Instance.Request.Ownership.{
  base_request-ownership, server_label_overrides_pool,
}
use karpenter_provider_hclou.Instance.World.{observe}
use karpenter_provider_hclou.Karpenter.{InstanceType}
use karpenter_provider_hclou.Tests.Memory.{
  memory, made, cluster, world, lenient, cx22, claim, node_class, second,
}

abbrev types : List (InstanceType (Option String))
types = cx22 ∷ []

abbrev in_nbg1 : Candidate (Option String)
in_nbg1 = record { instance_type = cx22; location = "nbg1"; price = 5 }

abbrev in_fsn1 : Candidate (Option String)
in_fsn1 = record { instance_type = cx22; location = "fsn1"; price = 3 }

abbrev order : CreateServerRequest
order = record {
  name = "claim-1";
  server_type = "";
  location = "";
  image_id = 5;
  ssh_key_ids = [];
  network_ids = 3 ∷ [];
  firewall_ids = 1 ∷ 2 ∷ [];
  placement_group_id = none;
  user_data = "#cloud-config";
  labels = request_labels cluster node_class claim;
  public_ipv4 = true;
  public_ipv6 = true;
}

abbrev server : Server
server = made (record order { server_type = "cx22"; location = "nbg1" }) 9 (2000 * second)

create-Handed_example :
    (req : CreateServerRequest) × (base_request cluster node_class claim "#cloud-config" ≡ ok req)
    × Handed lenient memory cluster claim types req
        (ordered_candidates lenient claim types)
        server
        (some cx22)
    × ((create lenient memory cluster node_class claim types "#cloud-config" world).1.cache.cached
        ≡ none)
unfolding create sort_stable classify observe lookup base_request is_unknown_code
    public_ipv4_enabled public_ipv6_enabled get mark ordered_candidates
create-Handed_example =
    create-Handed lenient memory cluster node_class claim types "#cloud-config" world
      (create lenient memory cluster node_class claim types "#cloud-config" world).1 server
      (some cx22) refl

create-Ends_example :
    Ends lenient memory cluster claim types order world
      (take 8 (in_fsn1 ∷ in_nbg1 ∷ []))
      (create lenient memory cluster node_class claim types "#cloud-config" world)
unfolding ordered_candidates base_request public_ipv4_enabled public_ipv6_enabled sort_stable lookup
create-Ends_example =
    create-Ends lenient memory cluster claim types order node_class "#cloud-config" world in_fsn1
      (in_nbg1 ∷ []) refl refl

ordered_candidates-ranks_example :
    ((c : Candidate (Option String))
      → Has c (ordered_candidates lenient claim types) ↔ Served lenient claim c types)
    × IsSorted less (map key (ordered_candidates lenient claim types))
    × ((shuffled : List (InstanceType (Option String)))
        → Permᴰ types shuffled
        → map key (ordered_candidates lenient claim types)
          ≡ map key (ordered_candidates lenient claim shuffled))
ordered_candidates-ranks_example = ordered_candidates-ranks lenient claim types

base_request-ownership_example :
    (cluster ≢ "")
    × (lookup label_managed_by order.labels ≡ some cluster)
    × (lookup label_node_claim order.labels ≡ some "claim-1")
    × (order.name ≡ "claim-1")
unfolding base_request public_ipv4_enabled public_ipv6_enabled
base_request-ownership_example =
    base_request-ownership cluster node_class claim "#cloud-config" order refl

server_label_overrides_pool_example :
    lookup label_node_pool (request_labels cluster node_class claim) ≡ some "other"
server_label_overrides_pool_example =
    server_label_overrides_pool cluster "other" node_class claim refl
