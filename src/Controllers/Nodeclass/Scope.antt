-- ===== src/Controllers/Nodeclass/Scope.antt =====
-- internal/controllers/nodeclass/validation.go: `locationScope`, which locations a NodeClass may place
-- nodes in, and the messages on what it leaves out.
pub mod Offered
pub mod Partition
use karpenter_provider_hclou.Base.{
  ℕ, Bool, true, false, ◌&&◌, ◌||◌, not, Option, none, some, List, [], ◌∷◌, ◌++◌, map, String,
  is_empty, contains, if◌then◌else◌, ◌==◌, string_comparable,
}
use karpenter_provider_hclou.Base.Map.{Map, lookup, insert}
use karpenter_provider_hclou.Base.Sort.{sort_stable, text_ltb}
use karpenter_provider_hclou.Api.NodeClass.{HCloudNodeClass, LocationStatus}
use karpenter_provider_hclou.Catalog.{Snapshot}
use karpenter_provider_hclou.Hcloudapi.Catalog.{ServerType, ServerTypeLocation}

abbrev pub supported_architecture : String
supported_architecture = "x86"

-- The three lists of `scope`, which the loop builds.
pub record Split : Type 0 where
  pub in_scope : List LocationStatus
  pub outside_zone : List String
  pub unknown : List String

pub record Scope : Type 0 where
  pub split : Split
  pub catalog_empty : Bool
  pub explicit : Bool
  pub zone : String

-- The loops that build `zones`.
unfoldable pub location_zones : List ServerTypeLocation → Map String → Map String
location_zones [] zones = zones
location_zones (l ∷ ls) zones =
    location_zones ls (if l.deprecated then zones else insert l.location l.network_zone zones)

unfoldable pub is_sold : ServerType → Bool
is_sold st = not (st.deprecated || not (st.architecture == supported_architecture))

unfoldable pub type_zones : List ServerType → Map String → Map String
unfolding location_zones is_sold
type_zones [] zones = zones
type_zones (st ∷ sts) zones =
    type_zones sts (if is_sold st then location_zones st.locations zones else zones)

unfoldable pub catalog_zones : Option Snapshot → Map String
unfolding type_zones
catalog_zones none = []
catalog_zones (some snapshot) = type_zones snapshot.server_types []

-- A zone that is known and differs from the network's, which is known too.
unfoldable pub zone_conflicts : String → String → Bool
zone_conflicts zone network_zone =
    not (zone == "") && (not (network_zone == "") && not (zone == network_zone))

-- The `switch` of the loop for one name.
unfoldable pub place : Map String → String → String → Split → Split
unfolding zone_conflicts
place zones network_zone name rest = elim (lookup name zones) [
  | none ↦ record rest { unknown = name ∷ rest.unknown }
  | some zone ↦
      if zone_conflicts zone network_zone
      then record rest { outside_zone = name ∷ rest.outside_zone }
      else record rest { in_scope = record { name = name; network_zone = zone } ∷ rest.in_scope }
]

-- The loop over the names, with the ones it has seen.
unfoldable pub split_names : Map String → String → List String → List String → Split
unfolding place
split_names zones network_zone seen [] = record { in_scope = []; outside_zone = []; unknown = [] }
split_names zones network_zone seen (name ∷ names) =
    let repeated = contains name seen in
    let rest = split_names zones network_zone (if repeated then seen else name ∷ seen) names in
    if repeated then rest else place zones network_zone name rest

unfoldable pub network_zone_of : HCloudNodeClass → String
network_zone_of node_class = elim (node_class.status.network) [ none ↦ "" | some net ↦ net.zone ]

-- The names to look at: the operator's, or all of the catalogue's, sorted.
unfoldable pub location_names : Map String → HCloudNodeClass → List String
unfolding sort_stable text_ltb
location_names zones node_class =
    if is_empty node_class.spec.locations
    then sort_stable text_ltb (map (λ e. e.0) zones)
    else node_class.spec.locations

unfoldable pub location_scope : Option Snapshot → HCloudNodeClass → Scope
unfolding catalog_zones network_zone_of location_names split_names
location_scope snapshot node_class =
    let zones = catalog_zones snapshot in
    record {
      split = split_names zones (network_zone_of node_class) [] (location_names zones node_class);
      catalog_empty = is_empty zones;
      explicit = not (is_empty node_class.spec.locations);
      zone = network_zone_of node_class;
    }

-- The reason of `emptyFailure`.
unfoldable pub empty_failure : Scope → String
empty_failure s =
    if not (is_empty s.split.outside_zone) && not (is_empty s.split.unknown)
    then "NoUsableLocations"
    else if not (is_empty s.split.outside_zone)
    then "LocationsOutsideNetworkZone"
    else if not (is_empty s.split.unknown)
    then "UnknownLocations"
    else "NoLocationsAvailable"

-- The names outside the zone, after the zone that a message says with them.
unfoldable pub outside_part : Scope → List String
outside_part s = if is_empty s.split.outside_zone then [] else s.zone ∷ s.split.outside_zone

-- Whether `excludedMessage` is not empty; if so, what it names.
unfoldable pub excluded : Scope → Option (List String × List String)
unfolding outside_part
excluded s =
    if not s.explicit || is_empty s.split.outside_zone && is_empty s.split.unknown
    then none
    else some (outside_part s, s.split.unknown)
