-- ===== src/Hcloudapi/Adapter/Clean.antt =====
-- Which servers there are after `Create` of internal/hcloudapi/servers.go.
use karpenter_provider_hclou.Base.{
  ℕ, ◌≡◌, ◌≢◌, refl, ◌⊎◌, inl, inr, none, some, List, nat_comparable,
}
use karpenter_provider_hclou.Hcloudapi.Adapter.{ServerClient, get}
use karpenter_provider_hclou.Hcloudapi.Conversion.{server_from_hcloud}
use karpenter_provider_hclou.Hcloudapi.Errors.{Error, Result, ok, err}
use karpenter_provider_hclou.Hcloudapi.Hcloud.{HcloudServer, ServerCreateOpts, ServerCreateResult, Answer, answered, failed}
use karpenter_provider_hclou.Hcloudapi.Hcloud.Documented.{Documented}
use karpenter_provider_hclou.Hcloudapi.Redact.{Tree, code_in}
use karpenter_provider_hclou.Hcloudapi.Servers.{Server}

pub Answer-cases :
    {A : Type 0} (r : Answer A) → ((a : A) × (r ≡ answered a)) ⊎ ((e : Tree) × (r ≡ failed e))
Answer-cases (answered a) = inl (a, refl)
Answer-cases (failed e) = inr (e, refl)

module _ (s : ServerClient) (d : Documented s.api) where
  open s.api use {Cloud, server_create, wait_for, server_delete, get_by_id}
  open d use {
    view, view_id, create_keeps, create_adds, wait_local, get_reads, get_keeps, delete_gone,
    delete_local,
  }

  abbrev pub Others : ℕ → Cloud → Cloud → Type 0
  Others id c c' = (j : ℕ) → j ≢ id → view c' j ≡ view c j

  -- Hetzner answered the order with a server.
  abbrev pub Answered : ServerCreateOpts → Cloud → Type 0
  Answered opts c =
      (result : ServerCreateResult) × (srv : HcloudServer) × ((server_create opts c).0
        ≡ answered result)
      × (result.server ≡ some srv)

  -- What is left of an order that was placed in `c`, where `c'` is the state after it.
  pub data Left (opts : ServerCreateOpts) (c c' : Cloud) (r : Result Server) : Type 0 where
    -- the new server and no other
    made : (hs : HcloudServer)
      → r ≡ ok (server_from_hcloud hs)
      → view c hs.id ≡ none
      → view c' hs.id ≡ some hs
      → Others hs.id c c'
      → Left opts c c' r
    -- nothing of a creation that was answered with a server
    clean : (e : Error)
      → r ≡ err e
      → Answered opts c
      → ((j : ℕ) → view c' j ≡ view c j)
      → Left opts c c' r
    -- maybe the new server, whose deletion or whose reading failed last
    leftover : (id : ℕ) (e : Error) (last : Tree) (before : Cloud)
      → r ≡ err e
      → Answered opts c
      → view c id ≡ none
      → Others id c c'
      → ((server_delete id before ≡ (failed last, c')) ⊎ (get_by_id id before ≡ (failed last, c')))
      → Left opts c c' r
    -- what the creation itself left, which was answered with no server; all that there were are there
    refused : (e : Error)
      → r ≡ err e
      → ¬ Answered opts c
      → c' ≡ (server_create opts c).1
      → ((j : ℕ) (there : HcloudServer) → view c j ≡ some there → view c' j ≡ some there)
      → Left opts c c' r

  pub get-moves : (id : ℕ) (c : Cloud) → (get s id c).1 ≡ (get_by_id id c).1
  unfolding get
  get-moves id c = elim (Answer-cases (get_by_id id c).0) [
    | inr (e, unread) ↦ rw (unread, get) refl
    | inl (none, vanished) ↦ rw (vanished, get) refl
    | inl (some hs, there) ↦ rw (there, get) refl
  ]
