-- ===== src/Instance/Reads/Listing.antt =====
-- What `List` and `Get` of internal/providers/instance/list.go answer.
use karpenter_provider_hclou.Base.{
  ◌≡◌, ◌≢◌, inl, inr, ◌↔◌, true, Option, none, some, List, [], ◌∷◌, String, arith, eq_iff, Has, sym,
  Bool-cases, nat_comparable, string_comparable,
}
use karpenter_provider_hclou.Hcloudapi.Errors.{ok}
use karpenter_provider_hclou.Hcloudapi.Labels.{is_managed_by, managed_by_selector}
use karpenter_provider_hclou.Hcloudapi.Servers.{Server, Servers}
use karpenter_provider_hclou.Instance.ListCache as Cache
use karpenter_provider_hclou.Instance.Reads.{owned_servers, visible, list, get_id, get}
use karpenter_provider_hclou.Instance.World.{World}

owned_servers_sound :
    (c : String) (srv : Server) (servers : List (Option Server))
    → Has srv (owned_servers c servers)
    → Has (some srv) servers × (is_managed_by (some srv) c ≡ true)
unfolding owned_servers
owned_servers_sound c srv [] h = absurd h
owned_servers_sound c srv (none ∷ ss) h = let r = owned_servers_sound c srv ss h in (inr r.0, r.1)
owned_servers_sound c srv (some t ∷ ss) h = elim (Bool-cases (is_managed_by (some t) c)) [
  | inr foreign ↦
      let r = owned_servers_sound c srv ss (rw (foreign, owned_servers) at h) in (inr r.0, r.1)
  | inl mine ↦ elim (rw (mine, owned_servers) at h) [
    | inl e ↦ (inl (λ i. some (e i)), rw e mine)
    | inr m ↦ let r = owned_servers_sound c srv ss m in (inr r.0, r.1)
  ]
]

owned_servers_complete :
    (c : String) (srv : Server) (servers : List (Option Server))
    → Has (some srv) servers
    → is_managed_by (some srv) c ≡ true
    → Has srv (owned_servers c servers)
unfolding owned_servers
owned_servers_complete c srv [] m h = absurd m
owned_servers_complete c srv (none ∷ ss) (inl e) h = absurd (cc)
owned_servers_complete c srv (none ∷ ss) (inr m) h = owned_servers_complete c srv ss m h
owned_servers_complete c srv (some t ∷ ss) (inl e) h = rw ((rw e at h), owned_servers) (inl (cc))
owned_servers_complete c srv (some t ∷ ss) (inr m) h =
    let rest = owned_servers_complete c srv ss m h in
    elim (Bool-cases (is_managed_by (some t) c)) [
      | inr foreign ↦ rw (foreign, owned_servers) rest
      | inl mine ↦ rw (mine, owned_servers) (inr rest)
    ]

module _ (s : Servers) (c : String) where
  -- With a cluster name, `List` answers from the shared listing, and a server is in its answer exactly
  -- when it is in that listing and is owned by this cluster.
  list_iff :
      (w w' : World s) (listed : List (Option Server))
      → c ≢ ""
      → Cache.list (managed_by_selector c) w ≡ (ok listed, w')
      → (servers : List Server) × (list c w ≡ (ok servers, w'))
        × ((srv : Server)
            → Has srv servers ↔ (Has (some srv) listed × (is_managed_by (some srv) c ≡ true)))
  unfolding list
  list_iff w w' listed named h = (
    owned_servers c listed,
    ground (arith, eq_iff c ""),
    λ srv. (owned_servers_sound c srv listed, λ (m, o). owned_servers_complete c srv listed m o),
  )

  visible-managed :
      (o : Option Server) (srv : Server)
      → visible c o ≡ some srv
      → is_managed_by (some srv) c ≡ true
  unfolding visible
  visible-managed o srv h = elim (Bool-cases (is_managed_by o c)) [
    | inl mine ↦ rw (sym (rw (mine, visible) at h)) mine
    | inr foreign ↦ absurd (cc)
  ]

  -- A server that `Get` returns is owned by this cluster, whether it came from the listing or from
  -- the point read.
  get-managed :
      (provider_id : String) (w w' : World s) (srv : Server)
      → get c provider_id w ≡ (ok (some srv), w')
      → is_managed_by (some srv) c ≡ true
  unfolding get get_id
  get-managed provider_id w w' srv h = grind (arith, visible-managed)
