-- ===== src/Instancetype/Types.antt =====
-- internal/providers/instancetype/types.go: the instance types that Karpenter chooses from, with
-- `Line` of internal/hcloudapi/types.go. A requirement is written as what `NewRequirement` is given:
-- a key and the values of an `In`.
pub mod Sold
pub mod Withheld
use karpenter_provider_hclou.Base.{
  ℕ, ◌+◌, Bool, true, false, not, ◌&&◌, ◌||◌, Option, none, some, List, [], ◌∷◌, map, String, keep,
  find, contains, is_empty, if◌then◌else◌, ◌==◌, string_comparable,
}
use karpenter_provider_hclou.Base.Int.{ℤ}
use karpenter_provider_hclou.Base.Map.{Map, lookup}
use karpenter_provider_hclou.Base.Sort.{sort_stable, text_ltb}
use karpenter_provider_hclou.Base.Texts.{append_text, cut_prefix}
use karpenter_provider_hclou.Api.Bootstrap.{max_pods_or_default}
use karpenter_provider_hclou.Api.NodeClass.{HCloudNodeClass, public_ipv4_enabled}
use karpenter_provider_hclou.Bootstrap.Contents.{dedupe}
use karpenter_provider_hclou.Cloudprovider.Claims.{
  label_instance_type, label_topology_zone, label_csi_location, capacity_type_label_key,
  capacity_type_on_demand,
}
use karpenter_provider_hclou.Hcloudapi.Catalog.{Price, ServerType, ServerTypeLocation}
use karpenter_provider_hclou.Hcloudapi.ProviderId.{format_int}
use karpenter_provider_hclou.Instance.Candidates.{corev1_region_label}
use karpenter_provider_hclou.Instancetype.Resources.{
  Floats, capacity, InstanceTypeOverhead, overhead, allocatable,
}
use karpenter_provider_hclou.Instancetype.Unavailable.{Unavailable, has}
use karpenter_provider_hclou.Instancetype.Zone.{legacy_datacenter_for_location}
use karpenter_provider_hclou.Karpenter.{Offering, InstanceType}

-- `Line`: the first of four prefixes that the name has.
unfoldable pub line : String → String
unfolding cut_prefix
line name = elim (find (λ prefix. has_prefix name prefix) ("ccx" ∷ "cpx" ∷ "cax" ∷ "cx" ∷ [])) [
  | none ↦ ""
  | some prefix ↦ prefix
]
  where
    has_prefix : String → String → Bool
    has_prefix name prefix = elim (cut_prefix name prefix) [ none ↦ false | some rest ↦ true ]

unfoldable pub cpu_vendor : String → String
cpu_vendor line =
    if line == "cx"
    then "intel"
    else if line == "cpx" || line == "ccx"
    then "amd"
    else if line == "cax"
    then "ampere"
    else "unknown"

-- `locationFilter` of the allowed locations, at a location.
unfoldable pub location_filter : List String → String → Bool
location_filter allowed location = if is_empty allowed then true else contains location allowed

-- The arguments of `NewRequirement`, with the operator `In`.
abbrev pub Requirement : Type 0
Requirement = String × List String

abbrev pub label : String → String
label name = append_text "karpenter.itsh.dev/" name

unfoldable pub offering_requirements : ServerTypeLocation → List Requirement
unfolding legacy_datacenter_for_location append_text
offering_requirements l =
    (capacity_type_label_key, capacity_type_on_demand ∷ [])
    ∷ (corev1_region_label, l.location ∷ [])
    ∷ (label_topology_zone, legacy_datacenter_for_location l.location ∷ [])
    ∷ (label_csi_location, l.location ∷ [])
    ∷ (label "network-zone", l.network_zone ∷ [])
    ∷ []

unfoldable pub instance_type_requirements : Floats → ServerType → List String → List Requirement
unfolding line cpu_vendor append_text
instance_type_requirements floats st regions =
    (label_instance_type, st.name ∷ [])
    ∷ ("kubernetes.io/arch", (if st.architecture == "arm" then "arm64" else "amd64") ∷ [])
    ∷ ("kubernetes.io/os", "linux" ∷ [])
    ∷ (capacity_type_label_key, capacity_type_on_demand ∷ [])
    ∷ (corev1_region_label, regions)
    ∷ (label_csi_location, regions)
    ∷ (label "server-type-line", line st.name ∷ [])
    ∷ (label "cpu-type", st.cpu_type ∷ [])
    ∷ (label "cpu-vendor", cpu_vendor (line st.name) ∷ [])
    ∷ (label "storage-type", st.storage_type ∷ [])
    ∷ (label "vcpu", format_int st.cores ∷ [])
    ∷ (label "memory-gb", floats.format_memory st.memory_gib ∷ [])
    ∷ (label "disk-gb", format_int st.disk_gb ∷ [])
    ∷ []

-- The keys of the map `regions`, which gets every location that has a price.
unfoldable pub regions : Map Price → List ServerTypeLocation → List String
unfolding lookup
regions prices [] = []
regions prices (l ∷ ls) =
    let rest = regions prices ls in
    elim (lookup l.location prices) [
      | none ↦ rest
      | some price ↦ if contains l.location rest then rest else l.location ∷ rest
    ]

-- An instance type with the fields that only this package writes.
pub record Built (R : Type 0) : Type 0 where
  pub instance_type : InstanceType R
  pub overhead : InstanceTypeOverhead
  pub volume_attachment_limits : Map ℕ

-- The locations of a server type that are in scope and not being phased out.
unfoldable pub offered : List String → List ServerTypeLocation → List ServerTypeLocation
unfolding location_filter
offered allowed = keep (λ l. not (not (location_filter allowed l.location) || l.deprecated))

-- The arguments of `Build` that are the same for every type, with the time at which suppressions are
-- looked up, and `scheduling.NewRequirements`.
pub record Context (R : Type 0) : Type 0 where
  pub new_requirements : List Requirement → R
  pub floats : Floats
  pub node_class : HCloudNodeClass
  pub primary_ipv4_monthly : ℕ
  pub unavailable : Unavailable
  pub now : ℕ
  pub include_architectures : List String

module _ {R : Type 0} (ctx : Context R) where
  unfoldable pub price_of : Price → ℕ
  unfolding public_ipv4_enabled
  price_of price =
      if public_ipv4_enabled ctx.node_class.spec
      then price.monthly_net + ctx.primary_ipv4_monthly
      else price.monthly_net

  unfoldable pub offering : String → ServerTypeLocation → Price → Offering R
  unfolding offering_requirements price_of has
  offering name l price = record {
    requirements = ctx.new_requirements (offering_requirements l);
    price = price_of price;
    available = not (has ctx.unavailable ctx.now name l.location);
  }

  -- The loop over the locations: one without a price is passed over.
  unfoldable pub offerings : String → Map Price → List ServerTypeLocation → List (Offering R)
  unfolding offering lookup
  offerings name prices [] = []
  offerings name prices (l ∷ ls) =
      let rest = offerings name prices ls in
      elim (lookup l.location prices) [ none ↦ rest | some price ↦ offering name l price ∷ rest ]

  -- `newInstanceType`; `none` is nil.
  unfoldable pub new_instance_type : ServerType → List ServerTypeLocation → Option (Built R)
  unfolding capacity overhead allocatable offerings regions instance_type_requirements sort_stable
      text_ltb max_pods_or_default
  new_instance_type st locs =
      let cap =
        capacity ctx.floats st.cores st.memory_gib st.disk_gb
          (max_pods_or_default ctx.node_class.spec.kubelet) in
      let held = overhead ctx.floats ctx.node_class.spec.kubelet cap in
      let found = offerings st.name st.prices locs in
      if is_empty found
      then none
      else some (record {
        instance_type = record {
          name = st.name;
          requirements = ctx.new_requirements (
              instance_type_requirements ctx.floats st
                (sort_stable text_ltb (regions st.prices locs)));
          offerings = found;
          capacity = cap;
          allocatable = allocatable cap held;
        };
        overhead = held;
        volume_attachment_limits = ("csi.hetzner.cloud", 16) ∷ [];
      })

  -- `IncludeArchitectures`, where none is x86 only.
  abbrev pub architectures : List String
  architectures =
      if is_empty ctx.include_architectures then "x86" ∷ [] else ctx.include_architectures

  -- The body of the loop over the server types.
  unfoldable pub build_one : ServerType → Option (Built R)
  unfolding offered new_instance_type
  build_one st =
      if st.deprecated || not (contains st.architecture architectures)
      then none
      else (let locs = offered ctx.node_class.spec.locations st.locations in
          if is_empty locs then none else new_instance_type st locs)

  unfoldable pub build_each : List ServerType → List (Built R)
  unfolding build_one
  build_each [] = []
  build_each (st ∷ sts) =
      let rest = build_each sts in elim (build_one st) [ none ↦ rest | some b ↦ b ∷ rest ]

  abbrev pub by_name : Built R → Built R → Bool
  by_name a b = text_ltb a.instance_type.name b.instance_type.name

  -- `Build`; the catalogue has no name twice, so that the order of `sort.Slice` is determined.
  unfoldable pub build : List ServerType → List (Built R)
  unfolding build_each sort_stable text_ltb
  build sts = sort_stable by_name (build_each sts)
