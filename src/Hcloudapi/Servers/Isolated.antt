-- ===== src/Hcloudapi/Servers/Isolated.antt =====
-- What the documentation of Hetzner's API says of the calls behind `Servers`, as far as the
-- protection of other clients' servers rests on it.
use karpenter_provider_hclou.Base.{ℕ, ◌≡◌, ◌≢◌, Option}
use karpenter_provider_hclou.Hcloudapi.Errors.{ok}
use karpenter_provider_hclou.Hcloudapi.Servers.{Server, Servers}

-- `view` is the server with an id in a state: a read reports it and changes no server, and an order
-- to delete or to reset one server leaves the others.
pub record Isolated (s : Servers) : Type 0 where
  pub view : s.Cloud → ℕ → Option Server
  pub get_reads :
      (id : ℕ) (c c' : s.Cloud) (r : Option Server) → s.get id c ≡ (ok r, c') → view c id ≡ r
  pub get_keeps : (id j : ℕ) (c : s.Cloud) → view (s.get id c).1 j ≡ view c j
  pub actions_keeps : (id j : ℕ) (c : s.Cloud) → view (s.recent_actions id c).1 j ≡ view c j
  pub delete_local : (id j : ℕ) (c : s.Cloud) → j ≢ id → view (s.delete id c).1 j ≡ view c j
  pub reset_local : (id j : ℕ) (c : s.Cloud) → j ≢ id → view (s.reset id c).1 j ≡ view c j
