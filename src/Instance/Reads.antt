-- ===== src/Instance/Reads.antt =====
-- internal/providers/instance/list.go: `List`, `Get` and `Delete`.
pub mod Listing
pub mod Spares
use karpenter_provider_hclou.Base.{
  ℕ, Bool, true, false, not, Option, none, some, List, [], ◌∷◌, String, if◌then◌else◌, ◌==◌,
  nat_comparable, string_comparable,
}
use karpenter_provider_hclou.Hcloudapi.Errors.{Error, not_found, not_managed, Result, ok, err}
use karpenter_provider_hclou.Hcloudapi.Labels.{is_managed_by, managed_by_selector}
use karpenter_provider_hclou.Hcloudapi.ProviderId.{server_id_from_provider_id}
use karpenter_provider_hclou.Hcloudapi.Servers.{Server, Servers}
use karpenter_provider_hclou.Instance.ListCache as Cache
use karpenter_provider_hclou.Instance.World.{World, invalidate, err_no_cluster_name}

-- The loop of `List` that collects the owned servers.
unfoldable pub owned_servers : String → List (Option Server) → List Server
owned_servers cluster_name [] = []
owned_servers cluster_name (none ∷ servers) = owned_servers cluster_name servers
owned_servers cluster_name (some srv ∷ servers) =
    let rest = owned_servers cluster_name servers in
    if is_managed_by (some srv) cluster_name then srv ∷ rest else rest

-- The loop of `Get` over the listing.
unfoldable pub find_id : ℕ → List (Option Server) → Option Server
find_id id [] = none
find_id id (none ∷ servers) = find_id id servers
find_id id (some srv ∷ servers) = if srv.id == id then some srv else find_id id servers

-- The end of `Get`: a server that is not this cluster's is reported as gone.
unfoldable pub visible : String → Option Server → Option Server
visible cluster_name srv = if is_managed_by srv cluster_name then srv else none

module _ {s : Servers} (cluster_name : String) where
  unfoldable pub list : World s → Result (List Server) × World s
  unfolding owned_servers
  list w =
      if cluster_name == ""
      then (err err_no_cluster_name, w)
      else (let (r, w') = Cache.list (managed_by_selector cluster_name) w in
          elim r [
            | err e ↦ (err e, w')
            | ok servers ↦ (ok (owned_servers cluster_name servers), w')
          ])

  -- `Get` once the provider id is read.
  unfoldable pub get_id : ℕ → World s → Result (Option Server) × World s
  unfolding find_id visible
  get_id id w =
      let (r, w') = Cache.list (managed_by_selector cluster_name) w in
      elim r [
        | err e ↦ (err e, w')
        | ok servers ↦ elim (find_id id servers) [
          | some srv ↦ (ok (visible cluster_name (some srv)), w')
          | none ↦
              let (p, cloud) = s.get id w'.cloud in
              let w'' = record w' { cloud = cloud } in
              elim p [ err e ↦ (err e, w'') | ok srv ↦ (ok (visible cluster_name srv), w'') ]
        ]
      ]

  unfoldable pub get : String → World s → Result (Option Server) × World s
  unfolding get_id
  get provider_id w =
      if cluster_name == ""
      then (err err_no_cluster_name, w)
      else elim (server_id_from_provider_id provider_id) [
        | err e ↦ (err e, w)
        | ok id ↦ get_id id w
      ]

  -- `Delete` once the provider id is read: the ownership gate reads live state.
  unfoldable pub delete_id : String → ℕ → World s → Result (Unit {0}) × World s
  delete_id provider_id id w =
      let (r, cloud) = s.get id w.cloud in
      let w' = record w { cloud = cloud } in
      elim r [
        | err e ↦ (err e, w')
        | ok none ↦ (err (not_found "server" provider_id), w')
        | ok (some srv) ↦
            if not (is_managed_by (some srv) cluster_name)
            then (err (not_managed srv.name srv.id), w')
            else (let (d, cloud') = s.delete id cloud in
                let w'' = record w { cloud = cloud' } in
                elim d [ err e ↦ (err e, w'') | ok done ↦ (ok tt, invalidate w'') ])
      ]

  unfoldable pub delete : String → World s → Result (Unit {0}) × World s
  unfolding delete_id
  delete provider_id w = elim (server_id_from_provider_id provider_id) [
    | err e ↦ (err e, w)
    | ok id ↦ delete_id provider_id id w
  ]
