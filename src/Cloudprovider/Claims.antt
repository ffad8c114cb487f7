-- ===== src/Cloudprovider/Claims.antt =====
-- internal/cloudprovider/cloudprovider.go: `toNodeClaim` and `toNodeClaimFromServer`.
use karpenter_provider_hclou.Base.{
  Option, none, some, [], ◌∷◌, String, if◌then◌else◌, ◌==◌, string_comparable,
}
use karpenter_provider_hclou.Base.Int.{ℤ}
use karpenter_provider_hclou.Base.Map.{Map, insert, get}
use karpenter_provider_hclou.Api.Hash.{annotation_hash, annotation_hash_version, hash_version}
use karpenter_provider_hclou.Api.NodeClass.{HCloudNodeClass, HCloudNodeClassSpec}
use karpenter_provider_hclou.Hcloudapi.Labels.{label_node_pool}
use karpenter_provider_hclou.Hcloudapi.ProviderId.{provider_id}
use karpenter_provider_hclou.Hcloudapi.Servers.{Server}
use karpenter_provider_hclou.Instance.Candidates.{corev1_region_label}
use karpenter_provider_hclou.Instance.Request.{node_pool_label_key}
use karpenter_provider_hclou.Instancetype.Zone.{legacy_datacenter_for_location}
use karpenter_provider_hclou.Karpenter.{Scheduling, InstanceType, NodeClaim}

abbrev pub label_instance_type : String
label_instance_type = "node.kubernetes.io/instance-type"

abbrev pub label_topology_zone : String
label_topology_zone = "topology.kubernetes.io/zone"

abbrev pub label_csi_location : String
label_csi_location = "csi.hetzner.cloud/location"

abbrev pub capacity_type_label_key : String
capacity_type_label_key = "karpenter.sh/capacity-type"

abbrev pub capacity_type_on_demand : String
capacity_type_on_demand = "on-demand"

-- The loop over an instance type's requirements.
unfoldable pub pin_labels : Map String → Map String → Map String
pin_labels [] labels = labels
pin_labels ((k, v) ∷ pins) labels = pin_labels pins (insert k v labels)

-- The five labels that say what the server is.
unfoldable pub server_labels : Server → Map String → Map String
server_labels srv labels =
    insert label_topology_zone (legacy_datacenter_for_location srv.location) (
      insert capacity_type_label_key capacity_type_on_demand (
        insert label_csi_location srv.location (
          insert corev1_region_label srv.location
            (insert label_instance_type srv.server_type labels))))

unfoldable pub stamp : (HCloudNodeClassSpec → String) → HCloudNodeClass → Map String → Map String
stamp hash node_class annotations =
    insert annotation_hash_version hash_version
      (insert annotation_hash (hash node_class.spec) annotations)

module _ (sched : Scheduling) where
  open sched use {Requirements}

  -- `toNodeClaim`, which is called with a NodeClass that is there.
  unfoldable pub to_node_claim :
      (HCloudNodeClassSpec → String)
      → Server
      → Option (InstanceType Requirements)
      → NodeClaim Requirements
      → HCloudNodeClass
      → NodeClaim Requirements
  unfolding pin_labels server_labels stamp
  to_node_claim hash srv none node_claim node_class = record node_claim {
    annotations = stamp hash node_class node_claim.annotations;
    labels = server_labels srv node_claim.labels;
    provider_id = provider_id srv.id;
    creation_timestamp = srv.created;
  }
  to_node_claim hash srv (some it) node_claim node_class = record node_claim {
    annotations = stamp hash node_class node_claim.annotations;
    labels = server_labels srv (pin_labels (sched.pins it.requirements) node_claim.labels);
    capacity = it.capacity;
    allocatable = it.allocatable;
    provider_id = provider_id srv.id;
    creation_timestamp = srv.created;
  }

  -- `toNodeClaimFromServer`; its claim has no requirements, which are those of the empty spec.
  unfoldable pub to_node_claim_from_server :
      (String → Option (Map ℤ)) → Server → NodeClaim Requirements
  unfolding server_labels
  to_node_claim_from_server capacity_for srv =
      let pool = get srv.labels label_node_pool in
      let labels = server_labels srv [] in
      record {
        name = srv.name;
        uid = "";
        taints = [];
        startup_taints = [];
        labels = (if pool == "" then labels else insert node_pool_label_key pool labels);
        annotations = [];
        requirements = sched.unconstrained;
        requests = [];
        node_class_ref = none;
        provider_id = provider_id srv.id;
        capacity = (elim (capacity_for srv.server_type) [ none ↦ [] | some capacity ↦ capacity ]);
        allocatable = [];
        creation_timestamp = srv.created;
        rebooting_since = none;
      }
