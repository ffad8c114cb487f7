-- ===== src/Instancetype/Types/Withheld.antt =====
-- What a remembered failure withholds from the catalogue, and what the kubelet holds back from a node.
use karpenter_provider_hclou.Base.{
  ℕ, ◌+◌, ◌<◌, ◌≡◌, refl, sym, inl, inr, ap, ◌∙◌, true, false, not, ◌&&◌, List, [], ◌∷◌, String,
  if◌then◌else◌, arith, ◌==◌, string_comparable, eq_iff, Bool-cases,
}
use karpenter_provider_hclou.Base.Map.{Map}
use karpenter_provider_hclou.Api.Bootstrap.{
  KubeletArg, KubeletConfiguration, kube_reserved_or_default, system_reserved_or_default,
  eviction_hard_or_default, max_pods_or_default,
}
use karpenter_provider_hclou.Bootstrap.Kubeadm.{arg, resource_list_arg, eviction_arg}
use karpenter_provider_hclou.Hcloudapi.Catalog.{Price, ServerType, ServerTypeLocation}
use karpenter_provider_hclou.Hcloudapi.Errors.{ErrorCode}
use karpenter_provider_hclou.Hcloudapi.ProviderId.{format_int}
use karpenter_provider_hclou.Instancetype.Types.{Context, offering, build}
use karpenter_provider_hclou.Instancetype.Types.Sold.{Offers, IsSold, build-IsSold_iff}
use karpenter_provider_hclou.Instancetype.Unavailable.{Unavailable, mark, has}
use karpenter_provider_hclou.Instancetype.Unavailable.Laws.{has-mark}
use karpenter_provider_hclou.Karpenter.{Offering}

-- The same catalogue, built later.
abbrev pub at_time : {R : Type 0} → Context R → Unavailable → ℕ → Context R
at_time ctx unavailable later = record ctx { unavailable = unavailable; now = later }

-- The marked pair.
abbrev pub IsMarked : (name location name' location' : String) → Type 0
IsMarked name location name' location' = (name' ≡ name) × (location' ≡ location)

has-mark-there :
    (u : Unavailable) (now later : ℕ) (t l t' l' : String) (c : ErrorCode)
    → later < now + u.ttl
    → IsMarked t l t' l'
    → has (mark u now t l c) later t' l' ≡ true
has-mark-there u now later t l t' l' c soon (same, here) =
    ground (arith, has-mark u now later t l t' l' c, eq_iff t t', eq_iff l l', here, same)

has-mark-elsewhere :
    (u : Unavailable) (now later : ℕ) (t l t' l' : String) (c : ErrorCode)
    → ¬ IsMarked t l t' l'
    → has (mark u now t l c) later t' l' ≡ has u later t' l'
has-mark-elsewhere u now later t l t' l' c other = elim (Bool-cases (t == t' && l == l')) [
  | inr apart ↦ has-mark u now later t l t' l' c ∙ rw apart refl
  | inl both ↦
      let same : t ≡ t' = ground (arith, eq_iff t t') in
      let here : l ≡ l' = ground (arith, eq_iff l l') in absurd (other (sym same, sym here))
]

-- The values that a list of arguments has for a name, in order.
abbrev pub values : String → List KubeletArg → List String
values name [] = []
values name (a ∷ args) =
    let rest = values name args in if a.name == name then a.value ∷ rest else rest

-- The arguments that every kubelet is started with.
abbrev fixed_args : KubeletConfiguration → List KubeletArg
fixed_args k =
    arg "cloud-provider" "external"
    ∷ arg "kube-reserved" (resource_list_arg (kube_reserved_or_default k))
    ∷ arg "system-reserved" (resource_list_arg (system_reserved_or_default k))
    ∷ arg "eviction-hard" (eviction_arg (eviction_hard_or_default k))
    ∷ arg "max-pods" (format_int (max_pods_or_default k))
    ∷ []

module _ {R : Type 0} (ctx : Context R) where
  offering-mark :
      (now later : ℕ) (name location name' : String) (code : ErrorCode) (l : ServerTypeLocation)
      (price : Price)
      → ¬ IsMarked name location name' l.location
      → offering (at_time ctx (mark ctx.unavailable now name location code) later) name' l price
        ≡ offering (at_time ctx ctx.unavailable later) name' l price
  unfolding offering
  offering-mark now later name location name' code l price other =
      rw (has-mark-elsewhere ctx.unavailable now later name location name' l.location code other)
        refl

  -- After a failure to provision a type in a location has been marked, and until the time to live is
  -- over, a catalogue built anew offers that type there as unavailable, and every other type, and that
  -- type in every other location, as it would have without the failure: an offering of any type is one
  -- that is sold, unavailable where the pair is the marked one, and else the offering that a catalogue
  -- built at the same time without the mark has.
  pub build-mark :
      (sts : List ServerType) (now later : ℕ) (name location name' : String) (code : ErrorCode)
      (o : Offering R)
      → later < now + ctx.unavailable.ttl
      → Offers ctx name' o
          (build (at_time ctx (mark ctx.unavailable now name location code) later) sts)
      → (l : ServerTypeLocation) × (price : Price) × IsSold ctx sts name' l price
        × (IsMarked name location name' l.location → o.available ≡ false)
        × (¬ IsMarked name location name' l.location
          → (o ≡ offering (at_time ctx ctx.unavailable later) name' l price)
            × Offers ctx name' o (build (at_time ctx ctx.unavailable later) sts))
  unfolding offering
  build-mark sts now later name location name' code o soon offers =
      let marked = mark ctx.unavailable now name location code in
      let (l, price, sold, e) = (build-IsSold_iff (at_time ctx marked later) sts name' o).0 offers in
      (
        l,
        price,
        sold,
        λ here.
            ap (λ o. o.available) e
            ∙ ap not
                (has-mark-there ctx.unavailable now later name location name' l.location code soon
                  here),
        λ other.
            let same = e ∙ offering-mark now later name location name' code l price other in
            (
              same,
              (build-IsSold_iff (at_time ctx ctx.unavailable later) sts name' o).1
                  (l, price, sold, same),
            ),
      )
