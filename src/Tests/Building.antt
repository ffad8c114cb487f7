-- ===== src/Tests/Building.antt =====
-- The catalogue of instance types of a small market.
use karpenter_provider_hclou.Base.{
  ℕ, ◌*◌, ◌≡◌, ◌≢◌, ◌↔◌, refl, inl, true, false, some, [], ◌∷◌, List, String, Has, arith, map,
  string_comparable,
}
use karpenter_provider_hclou.Base.Int.{pos}
use karpenter_provider_hclou.Base.Map.{Map, lookup}
use karpenter_provider_hclou.Hcloudapi.Catalog.{Price, ServerType, ServerTypeLocation}
use karpenter_provider_hclou.Hcloudapi.Errors.{resource_unavailable}
use karpenter_provider_hclou.Instancetype.Resources.{Floats}
use karpenter_provider_hclou.Instancetype.Types.{
  Requirement, location_filter, Context, offering, build,
}
use karpenter_provider_hclou.Instancetype.Types.Sold.{Offers, IsSold, build-IsSold_iff}
use karpenter_provider_hclou.Instancetype.Types.Withheld.{at_time, IsMarked, build-mark}
use karpenter_provider_hclou.Instancetype.Unavailable.{mark}
use karpenter_provider_hclou.Karpenter.{Offering}
use karpenter_provider_hclou.Tests.Memory.{node_class, second}

abbrev floats : Floats
floats = record {
  memory_bytes = λ gib. gib * 1_000_000_000;
  disk_bytes = λ gb. gb * 980_000_000;
  parse_threshold = λ text total. some (pos 500);
  format_memory = λ gib. "4";
}

abbrev listed : String → ServerTypeLocation
listed name = record {
  location = name;
  network_zone = "eu-central";
  available = false;
  recommended = false;
  deprecated = false;
}

abbrev priced : ℕ → Price
priced monthly = record { hourly_net = 1; monthly_net = monthly }

-- Sold in one of the three locations in which it is listed: the scope has `fsn1` and `xyz1`.
abbrev cx23 : ServerType
cx23 = record {
  id = 1;
  name = "cx23";
  cores = 2;
  memory_gib = 4;
  disk_gb = 40;
  architecture = "x86";
  cpu_type = "shared";
  storage_type = "local";
  deprecated = false;
  prices = ("fsn1", priced 400) ∷ ("nbg1", priced 400) ∷ [];
  locations = listed "fsn1" ∷ listed "nbg1" ∷ listed "xyz1" ∷ [];
}

abbrev old : ServerType
old = record cx23 { name = "cx11"; deprecated = true }

abbrev market : List ServerType
market = cx23 ∷ old ∷ []

abbrev context : Context (List Requirement)
context = record {
  new_requirements = λ requirements. requirements;
  floats = floats;
  node_class = node_class;
  primary_ipv4_monthly = 50;
  unavailable = record { ttl = 300 * second; items = [] };
  now = 1000 * second;
  include_architectures = [];
}

sold_prices :
    map
      (λ b. map (λ (o : Offering (List Requirement)). o.price) b.instance_type.offerings)
      (build context market)
    ≡ (450 ∷ []) ∷ []
unfolding build lookup
sold_prices = refl

abbrev on_offer : Offering (List Requirement)
on_offer = offering context "cx23" (listed "fsn1") (priced 400)

sold : IsSold context market "cx23" (listed "fsn1") (priced 400)
unfolding lookup location_filter
sold = (cx23, inl refl, refl, (refl, refl), inl refl, refl, refl, refl)

build-IsSold_iff_example : Offers context "cx23" on_offer (build context market) ↔ (
    (l : ServerTypeLocation) × (price : Price) × IsSold context market "cx23" l price
    × (on_offer ≡ offering context "cx23" l price))
build-IsSold_iff_example = build-IsSold_iff context market "cx23" on_offer

abbrev marked : Context (List Requirement)
marked =
    at_time context (mark context.unavailable (1000 * second) "cx23" "fsn1" resource_unavailable)
      (1200 * second)

abbrev withheld : Offering (List Requirement)
withheld = offering marked "cx23" (listed "fsn1") (priced 400)

still_offered : Offers marked "cx23" withheld (build marked market)
still_offered =
    (build-IsSold_iff marked market "cx23" withheld).1 (listed "fsn1", priced 400, sold, refl)

build-mark_example :
    (l : ServerTypeLocation) × (price : Price) × IsSold context market "cx23" l price
    × (IsMarked "cx23" "fsn1" "cx23" l.location → withheld.available ≡ false)
    × (¬ IsMarked "cx23" "fsn1" "cx23" l.location
      → (withheld
          ≡ offering (at_time context context.unavailable (1200 * second)) "cx23" l price)
        × Offers context "cx23" withheld
            (build (at_time context context.unavailable (1200 * second)) market))
build-mark_example =
    build-mark context market (1000 * second) (1200 * second) "cx23" "fsn1" "cx23"
      resource_unavailable withheld (omega arith) still_offered
