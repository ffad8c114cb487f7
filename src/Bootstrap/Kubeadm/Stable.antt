-- ===== src/Bootstrap/Kubeadm/Stable.antt =====
-- That the arguments of the kubelet forget the order in which a map is read.

use mathlib.Core.List.{Permᴰ}
use mathlib.Core.List.Permᴰ.{nil, cons, swap, trans}
use karpenter_provider_hclou.Base.{
  ◌≡◌, refl, inl, inr, ap, ◌∙◌, List, String, map, is_empty, if◌then◌else◌, Bool-cases,
}
use karpenter_provider_hclou.Base.Sort.{text_ltb}
use karpenter_provider_hclou.Base.Sort.Laws.{
  IsStrictOrder, text_ltb_irrefl, text_ltb_trans, text_ltb_total, sort_stable-perm,
}
use karpenter_provider_hclou.Base.Texts.{join}
use karpenter_provider_hclou.Api.Bootstrap.{
  kube_reserved_or_default, system_reserved_or_default, eviction_hard_or_default,
  max_pods_or_default, default_reserved, default_eviction_hard,
}
use karpenter_provider_hclou.Bootstrap.Kubeadm.{
  JoinInput, sorted_arg, resource_list_arg, eviction_arg, map_arg, kubelet_args, join_configuration,
}

text_order : IsStrictOrder String text_ltb
text_order = record { irrefl = text_ltb_irrefl; trans = text_ltb_trans; total = text_ltb_total }

map-Permᴰ : {A B : Type 0} (f : A → B) {xs ys : List A} → Permᴰ xs ys → Permᴰ (map f xs) (map f ys)
map-Permᴰ f nil = nil
map-Permᴰ f (cons e d) = cons (ap f e) (map-Permᴰ f d)
map-Permᴰ f (swap e g) = swap (ap f e) (ap f g)
map-Permᴰ f (trans d e) = trans (map-Permᴰ f d) (map-Permᴰ f e)

is_empty-Permᴰ : {A : Type 0} {xs ys : List A} → Permᴰ xs ys → is_empty xs ≡ is_empty ys
is_empty-Permᴰ nil = refl
is_empty-Permᴰ (cons e d) = refl
is_empty-Permᴰ (swap e f) = refl
is_empty-Permᴰ (trans d e) = is_empty-Permᴰ d ∙ is_empty-Permᴰ e

sorted_arg-Permᴰ :
    {A : Type 0} (text : A → String) {xs ys : List A}
    → Permᴰ xs ys
    → sorted_arg (map text xs) ≡ sorted_arg (map text ys)
unfolding sorted_arg
sorted_arg-Permᴰ text d = ap (join ",") (sort_stable-perm text_ltb text_order (map-Permᴰ text d))

-- The same input, with each of its maps read in another order.
pub record IsReread (a b : JoinInput) : Type 0 where
  pub api_server_endpoint : a.api_server_endpoint ≡ b.api_server_endpoint
  pub token : a.token ≡ b.token
  pub ca_cert_hashes : a.ca_cert_hashes ≡ b.ca_cert_hashes
  pub taints : a.taints ≡ b.taints
  pub node_labels : Permᴰ a.node_labels b.node_labels
  pub kube_reserved : Permᴰ a.kubelet.kube_reserved b.kubelet.kube_reserved
  pub system_reserved : Permᴰ a.kubelet.system_reserved b.kubelet.system_reserved
  pub eviction_hard : Permᴰ a.kubelet.eviction_hard b.kubelet.eviction_hard
  pub max_pods : a.kubelet.max_pods ≡ b.kubelet.max_pods
  pub cluster_dns : a.kubelet.cluster_dns ≡ b.kubelet.cluster_dns
  pub extra_args : a.kubelet.extra_args ≡ b.kubelet.extra_args

default-Permᴰ :
    {A : Type 0} (text : A → String) (default : List A) {xs ys : List A}
    → Permᴰ xs ys
    → sorted_arg (map text (if is_empty xs then default else xs))
      ≡ sorted_arg (map text (if is_empty ys then default else ys))
default-Permᴰ text default {ys = ys} d = elim (Bool-cases (is_empty ys)) [
  | inl unset ↦ rw (is_empty-Permᴰ d, unset) refl
  | inr given ↦ rw (is_empty-Permᴰ d, given) (sorted_arg-Permᴰ text d)
]

kube_reserved-IsReread :
    (a b : JoinInput)
    → IsReread a b
    → resource_list_arg (kube_reserved_or_default a.kubelet)
      ≡ resource_list_arg (kube_reserved_or_default b.kubelet)
unfolding resource_list_arg kube_reserved_or_default
kube_reserved-IsReread a b h = default-Permᴰ _ default_reserved h.kube_reserved

system_reserved-IsReread :
    (a b : JoinInput)
    → IsReread a b
    → resource_list_arg (system_reserved_or_default a.kubelet)
      ≡ resource_list_arg (system_reserved_or_default b.kubelet)
unfolding resource_list_arg system_reserved_or_default
system_reserved-IsReread a b h = default-Permᴰ _ default_reserved h.system_reserved

eviction_hard-IsReread :
    (a b : JoinInput)
    → IsReread a b
    → eviction_arg (eviction_hard_or_default a.kubelet)
      ≡ eviction_arg (eviction_hard_or_default b.kubelet)
unfolding eviction_arg eviction_hard_or_default
eviction_hard-IsReread a b h = default-Permᴰ _ default_eviction_hard h.eviction_hard

map_arg-IsReread : (a b : JoinInput) → IsReread a b → map_arg a.node_labels ≡ map_arg b.node_labels
unfolding map_arg
map_arg-IsReread a b h = sorted_arg-Permᴰ _ h.node_labels

kubelet_args-IsReread : (a b : JoinInput) → IsReread a b → kubelet_args a ≡ kubelet_args b
unfolding kubelet_args max_pods_or_default
kubelet_args-IsReread a b h =
    rw
      (
        kube_reserved-IsReread a b h,
        system_reserved-IsReread a b h,
        eviction_hard-IsReread a b h,
        map_arg-IsReread a b h,
        is_empty-Permᴰ h.node_labels,
        h.max_pods,
        h.cluster_dns,
        h.extra_args,
      )
      refl

-- The join configuration does not depend on the order in which a `range` loop meets the entries of the
-- node labels, the reservations and the eviction thresholds.
pub join_configuration-IsReread :
    (a b : JoinInput) → IsReread a b → join_configuration a ≡ join_configuration b
unfolding join_configuration
join_configuration-IsReread a b h =
    rw (h.api_server_endpoint, h.token, h.ca_cert_hashes, h.taints, kubelet_args-IsReread a b h)
      refl
