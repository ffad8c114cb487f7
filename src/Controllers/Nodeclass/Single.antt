-- ===== src/Controllers/Nodeclass/Single.antt =====
-- internal/controllers/nodeclass/image.go, network.go and placementgroup.go: the reconcilers of a single
-- selector. The argument `answer` is what a read of a selector answers.
pub mod Settled
pub mod Full
use karpenter_provider_hclou.Base.Texts.{append_text}
use karpenter_provider_hclou.Base.{
  ℕ, ◌-◌, Bool, true, false, Option, none, some, List, [], ◌∷◌, String, if◌then◌else◌, ◌==◌, leb,
  string_comparable,
}
use karpenter_provider_hclou.Api.NodeClass.{
  ImageStatus, NetworkStatus, PlacementGroupStatus, SelectorTerm,
}
use karpenter_provider_hclou.Controllers.Nodeclass.Resolve.{
  give_up, set_condition, describe_selector,
}
use karpenter_provider_hclou.Controllers.Nodeclass.Validation.{
  is_true, is_false, Subject, resolved_requeue, misconfigured_requeue,
}
use karpenter_provider_hclou.Hcloudapi.Errors.{Error, Result, ok, err}

abbrev pub image_ready : String
image_ready = "ImageReady"

abbrev pub network_ready : String
network_ready = "NetworkReady"

abbrev pub placement_group_ready : String
placement_group_ready = "PlacementGroupReady"

abbrev pub placement_group_max_servers : ℕ
placement_group_max_servers = 10

abbrev pub placement_group_warn_servers : ℕ
placement_group_warn_servers = placement_group_max_servers - 2

unfoldable pub set_image : Option ImageStatus → Subject → Subject
set_image image s = record s {
  node_class = record s.node_class { status = record s.node_class.status { image = image } };
}

unfoldable pub set_network : Option NetworkStatus → Subject → Subject
set_network network s = record s {
  node_class = record s.node_class { status = record s.node_class.status { network = network } };
}

unfoldable pub set_placement_group : Option PlacementGroupStatus → Subject → Subject
set_placement_group group s = record s {
  node_class = record s.node_class {
    status = record s.node_class.status { placement_group = group };
  };
}

-- `SetTrue`, whose reason is the name of the condition.
unfoldable pub succeed : String → Subject → Result ℕ × Subject
unfolding set_condition
succeed name s = (ok resolved_requeue, set_condition name is_true name ("", [], []) s)

-- `Image.Reconcile`
unfoldable pub reconcile_image : (SelectorTerm → Result ImageStatus) → Subject → Result ℕ × Subject
unfolding give_up set_image succeed
reconcile_image answer s =
    let sel = s.node_class.spec.image_selector in
    elim (answer sel) [
      | err e ↦ give_up image_ready "Image" "imageSelector" sel (set_image none) e s
      | ok img ↦ succeed image_ready (set_image (some img) s)
    ]

-- What `Network.Reconcile` does with a network: one without a subnet has no zone.
unfoldable pub place_network : SelectorTerm → NetworkStatus → Subject → Result ℕ × Subject
unfolding set_network succeed set_condition describe_selector
place_network sel net s =
    if net.zone == ""
    then (
      ok misconfigured_requeue,
      set_condition network_ready is_false "NetworkHasNoSubnet"
          ("network has no subnet", describe_selector sel ∷ [], []) (set_network none s),
    )
    else succeed network_ready (set_network (some net) s)

-- `Network.Reconcile`
unfoldable pub reconcile_network :
    (SelectorTerm → Result NetworkStatus) → Subject → Result ℕ × Subject
unfolding give_up place_network succeed set_network
reconcile_network answer s = elim (s.node_class.spec.network_selector) [
  | none ↦ succeed network_ready (set_network none s)
  | some sel ↦ elim (answer sel) [
    | err e ↦ give_up network_ready "Network" "networkSelector" sel (set_network none) e s
    | ok net ↦ place_network sel net s
  ]
]

-- A group that is full, or nearly so, is still True and says so in the reason.
unfoldable pub capacity_reason : PlacementGroupStatus → String
capacity_reason pg =
    if leb placement_group_max_servers pg.server_count
    then "PlacementGroupAtCapacity"
    else if leb placement_group_warn_servers pg.server_count
    then "PlacementGroupNearCapacity"
    else placement_group_ready

unfoldable pub capacity_message : PlacementGroupStatus → String
capacity_message pg =
    if leb placement_group_max_servers pg.server_count
    then "placement group is at Hetzner's limit"
    else if leb placement_group_warn_servers pg.server_count
    then "placement group is within two servers of Hetzner's limit"
    else ""

-- `PlacementGroup.Reconcile`
unfoldable pub reconcile_placement_group :
    (SelectorTerm → Result PlacementGroupStatus) → Subject → Result ℕ × Subject
unfolding give_up succeed set_placement_group set_condition capacity_reason capacity_message
reconcile_placement_group answer s = elim (s.node_class.spec.placement_group) [
  | none ↦ succeed placement_group_ready (set_placement_group none s)
  | some sel ↦ elim (answer sel) [
    | err e ↦
        give_up placement_group_ready "PlacementGroup" "placementGroup" sel
          (set_placement_group none) e s
    | ok pg ↦ (
      ok resolved_requeue,
      set_condition placement_group_ready is_true (capacity_reason pg) (capacity_message pg, [], [])
          (set_placement_group (some pg) s),
    )
  ]
]
