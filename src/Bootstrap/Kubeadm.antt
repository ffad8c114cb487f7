-- ===== src/Bootstrap/Kubeadm.antt =====
-- internal/providers/bootstrap/kubeadm.go: the configuration that a node joins with.
pub mod Stable
use karpenter_provider_hclou.Base.{
  ℕ, List, [], ◌∷◌, ◌++◌, String, map, is_empty, if◌then◌else◌, ◌==◌, string_comparable,
}
use karpenter_provider_hclou.Base.Map.{Map}
use karpenter_provider_hclou.Base.Sort.{sort_stable, text_ltb}
use karpenter_provider_hclou.Base.Texts.{append_text, join}
use karpenter_provider_hclou.Api.Bootstrap.{
  Quantity, KubeletArg, KubeletConfiguration, kube_reserved_or_default, system_reserved_or_default,
  eviction_hard_or_default, max_pods_or_default,
}
use karpenter_provider_hclou.Hcloudapi.Errors.{errorf, wrapf, Result, ok, err}
use karpenter_provider_hclou.Hcloudapi.ProviderId.{format_int}
use karpenter_provider_hclou.Karpenter.{Taint}

pub record BootstrapTokenDiscovery : Type 0 where
  pub api_server_endpoint : String
  pub token : String
  pub ca_cert_hashes : List String

pub record NodeRegistration : Type 0 where
  pub taints : List Taint
  pub kubelet_extra_args : List KubeletArg

-- `joinConfiguration`, with the one field of its discovery.
pub record JoinConfiguration : Type 0 where
  pub api_version : String
  pub kind : String
  pub bootstrap_token : BootstrapTokenDiscovery
  pub node_registration : NodeRegistration

pub record JoinInput : Type 0 where
  pub api_server_endpoint : String
  pub token : String
  pub ca_cert_hashes : List String
  pub taints : List Taint
  pub node_labels : Map String
  pub kubelet : KubeletConfiguration

abbrev pub unregistered_taint : Taint
unregistered_taint = record { key = "karpenter.sh/unregistered"; value = ""; effect = "NoExecute" }

-- The body of the three functions that render a map: its entries in the order of their texts.
unfoldable pub sorted_arg : List String → String
unfolding sort_stable text_ltb join
sorted_arg parts = join "," (sort_stable text_ltb parts)

-- An entry of a map, with what stands between key and value.
unfoldable pub entry_text : String → String × String → String
unfolding append_text
entry_text between entry = append_text entry.0 (append_text between entry.1)

abbrev pub quantity_entry : String × Quantity → String × String
quantity_entry entry = (entry.0, entry.1.text)

unfoldable pub resource_list_arg : Map Quantity → String
unfolding sorted_arg entry_text
resource_list_arg rl = sorted_arg (map (λ entry. entry_text "=" (quantity_entry entry)) rl)

unfoldable pub eviction_arg : Map String → String
unfolding sorted_arg entry_text
eviction_arg m = sorted_arg (map (entry_text "<") m)

unfoldable pub map_arg : Map String → String
unfolding sorted_arg entry_text
map_arg m = sorted_arg (map (entry_text "=") m)

abbrev pub arg : String → String → KubeletArg
arg name value = record { name = name; value = value }

-- `kubeletArgs`
unfoldable pub kubelet_args : JoinInput → List KubeletArg
unfolding resource_list_arg eviction_arg map_arg kube_reserved_or_default system_reserved_or_default
    eviction_hard_or_default max_pods_or_default join
kubelet_args input =
    let k = input.kubelet in
    (arg "cloud-provider" "external"
      ∷ arg "kube-reserved" (resource_list_arg (kube_reserved_or_default k))
      ∷ arg "system-reserved" (resource_list_arg (system_reserved_or_default k))
      ∷ arg "eviction-hard" (eviction_arg (eviction_hard_or_default k))
      ∷ arg "max-pods" (format_int (max_pods_or_default k))
      ∷ [])
    ++ ((if is_empty input.node_labels
          then []
          else arg "node-labels" (map_arg input.node_labels) ∷ [])
        ++ ((if is_empty k.cluster_dns then [] else arg "cluster-dns" (join "," k.cluster_dns) ∷ [])
            ++ k.extra_args))

-- The configuration that `renderJoinConfiguration` builds.
unfoldable pub join_configuration : JoinInput → JoinConfiguration
unfolding kubelet_args
join_configuration input = record {
  api_version = "kubeadm.k8s.io/v1beta4";
  kind = "JoinConfiguration";
  bootstrap_token = record {
    api_server_endpoint = input.api_server_endpoint;
    token = input.token;
    ca_cert_hashes = input.ca_cert_hashes;
  };
  node_registration = record {
    taints = unregistered_taint ∷ input.taints;
    kubelet_extra_args = kubelet_args input;
  };
}

-- `renderJoinConfiguration`, with `yaml.Marshal`.
unfoldable pub render_join_configuration :
    (JoinConfiguration → Result String) → JoinInput → Result String
unfolding join_configuration
render_join_configuration marshal input =
    if input.api_server_endpoint == ""
    then err (errorf "apiServerEndpoint is required" [])
    else if input.token == ""
    then err (errorf "token is required" [])
    else if is_empty input.ca_cert_hashes
    then err (
        errorf "caCertHashes is required: joining without a CA pin trusts any endpoint that answers"
          [])
    else elim (marshal (join_configuration input)) [
      | err e ↦ err (wrapf "marshalling join configuration: %w" [] e)
      | ok out ↦ ok out
    ]
