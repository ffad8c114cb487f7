-- ===== src/Hcloudapi/Hcloud/Documented.antt =====
-- What the documentation of Hetzner's API says of the calls behind `serverClient`, as far as it tells
-- which servers there are.
use karpenter_provider_hclou.Base.{ℕ, ◌≡◌, ◌≢◌, Option, none, some, List, ◌∷◌, String}
use karpenter_provider_hclou.Hcloudapi.Hcloud.{
  HcloudServer, ServerCreateOpts, ServerCreateResult, answered, Hcloud,
}

-- `view` is the server with an id in a state. A creation leaves the servers that there are, whatever
-- its answer; where it answers with a server, that one has an id that was not in use, and no other is
-- added. What becomes of the new server while it is created is left open: waiting for the actions of
-- its creation leaves the others. A read reports a server and changes none, and an order to delete or
-- to reset one server leaves the others; a deletion that is answered takes its server away.
pub record Documented (h : Hcloud) : Type 0 where
  pub view : h.Cloud → ℕ → Option HcloudServer
  pub view_id : (c : h.Cloud) (id : ℕ) (srv : HcloudServer) → view c id ≡ some srv → srv.id ≡ id
  pub create_keeps :
      (opts : ServerCreateOpts) (c : h.Cloud) (j : ℕ) (there : HcloudServer)
      → view c j ≡ some there
      → view (h.server_create opts c).1 j ≡ some there
  pub create_adds :
      (opts : ServerCreateOpts) (c : h.Cloud) (r : ServerCreateResult) (srv : HcloudServer)
      → (h.server_create opts c).0 ≡ answered r
      → r.server ≡ some srv
      → (view c srv.id ≡ none)
        × ((j : ℕ) → j ≢ srv.id → view (h.server_create opts c).1 j ≡ view c j)
  pub wait_local :
      (opts : ServerCreateOpts) (c : h.Cloud) (r : ServerCreateResult) (srv : HcloudServer)
      (timeout : ℕ) (j : ℕ)
      → (h.server_create opts c).0 ≡ answered r
      → r.server ≡ some srv
      → j ≢ srv.id
      → view (h.wait_for timeout (r.action ∷ r.next_actions) (h.server_create opts c).1).1 j
        ≡ view (h.server_create opts c).1 j
  pub get_reads :
      (id : ℕ) (c : h.Cloud) (r : Option HcloudServer)
      → (h.get_by_id id c).0 ≡ answered r
      → view c id ≡ r
  pub get_keeps : (id : ℕ) (c : h.Cloud) (j : ℕ) → view (h.get_by_id id c).1 j ≡ view c j
  pub delete_gone :
      (id : ℕ) (c : h.Cloud)
      → (h.server_delete id c).0 ≡ answered tt
      → view (h.server_delete id c).1 id ≡ none
  pub delete_local :
      (id : ℕ) (c : h.Cloud) (j : ℕ) → j ≢ id → view (h.server_delete id c).1 j ≡ view c j
  pub reset_local :
      (id : ℕ) (c : h.Cloud) (j : ℕ) → j ≢ id → view (h.server_reset id c).1 j ≡ view c j
  pub actions_keeps :
      (id per_page : ℕ) (sort : List String) (c : h.Cloud) (j : ℕ)
      → view (h.action_list_for id per_page sort c).1 j ≡ view c j
