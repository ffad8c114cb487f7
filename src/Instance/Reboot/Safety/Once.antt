-- ===== src/Instance/Reboot/Safety/Once.antt =====
-- What `Reboot` does on a server that it may reset, for every list of recent actions.
use karpenter_provider_hclou.Base.{
  ℕ, ◌≡◌, ◌≢◌, refl, inl, inr, Bool, true, false, some, List, String, arith, exists,
  string_comparable, eq_iff,
}
use karpenter_provider_hclou.Base.Map.{get}
use karpenter_provider_hclou.Hcloudapi.Errors.{Error, Result, ok, err, Result-cases}
use karpenter_provider_hclou.Hcloudapi.Labels.{is_managed_by, label_node_claim}
use karpenter_provider_hclou.Hcloudapi.ProviderId.{server_id_from_provider_id}
use karpenter_provider_hclou.Hcloudapi.Servers.{Server, Action, Servers}
use karpenter_provider_hclou.Instance.Reboot.{
  Verdict, held, issued, inspect, reset_unless, reboot_server, reboot_id, reboot, reboot_error,
}
use karpenter_provider_hclou.Instance.Reboot.Safety.Inspected.{
  holds, resets, inspect-free, inspect-held,
}
use karpenter_provider_hclou.Instance.World.{World}

module _ (s : Servers) (c : String) where
  -- The call failed and left `w`.
  abbrev pub Refused : Result (Unit {0}) × World s → World s → Type 0
  Refused out w = (e : Error) × (out ≡ (err e, w))

  not_issued :
      (srv : Server) (id : ℕ) (v : Verdict) (w : World s)
      → ((b : Bool) → v ≢ issued b)
      → Refused (reset_unless c srv id v w) w
  unfolding reset_unless
  not_issued srv id (held command) w n = (_, refl)
  not_issued srv id (issued b) w n = absurd (n b refl)

  -- What `Reboot` makes of what Hetzner answers to the reset.
  abbrev pub answer : Result (Unit {0}) → Result (Unit {0})
  answer (ok done) = ok tt
  answer (err e) = err (reboot_error e)

  reset-on :
      (srv : Server) (id : ℕ) (w : World s)
      → srv.status ≢ "off"
      → reset_unless c srv id (issued false) w
        ≡ (answer (s.reset id w.cloud).0, record w { cloud = (s.reset id w.cloud).1 })
  unfolding reset_unless
  reset-on srv id w on = elim (Result-cases (s.reset id w.cloud).0) [
    | inl (_, done) ↦ ground (arith, eq_iff srv.status "off")
    | inr (e, failed) ↦ ground (arith, eq_iff srv.status "off")
  ]

  module _ (provider_id : String) (id : ℕ) (name : String) (requested_at : ℕ) (w : World s)
      (srv : Server) (actions : List Action) (before after : s.Cloud)
      (parsed : server_id_from_provider_id provider_id ≡ ok id)
      (found : s.get id w.cloud ≡ (ok (some srv), before))
      (mine : is_managed_by (some srv) c ≡ true) (claimed : get srv.labels label_node_claim ≡ name)
      (read : s.recent_actions id before ≡ (ok actions, after)) where
    -- The state once the actions are read.
    abbrev seen : World s
    seen = record w { cloud = after }

    decided :
        reboot c provider_id name requested_at w
        ≡ reset_unless c srv id (inspect requested_at false actions) seen
    unfolding reboot reboot_id reboot_server
    decided = ground (arith, eq_iff (get srv.labels label_node_claim) name)

    -- On a server of this cluster that carries the claim's name, once its recent actions are read:
    -- where an action that did not fail holds the server down, `Reboot` fails and calls nothing more;
    -- where it finds a reset that did not fail and that started since the reboot was asked for, it
    -- succeeds without another reset; otherwise it fails if the server is off, and orders one reset
    -- if not, which decides between success and failure.
    pub reboot-once :
        (exists holds actions ≡ true → Refused (reboot c provider_id name requested_at w) seen)
        × (exists holds actions ≡ false
            → exists (resets requested_at) actions ≡ true
            → reboot c provider_id name requested_at w ≡ (ok tt, seen))
        × (exists holds actions ≡ false
            → exists (resets requested_at) actions ≡ false
            → srv.status ≡ "off"
            → Refused (reboot c provider_id name requested_at w) seen)
        × (exists holds actions ≡ false
            → exists (resets requested_at) actions ≡ false
            → srv.status ≢ "off"
            → reboot c provider_id name requested_at w
              ≡ (answer (s.reset id after).0, record w { cloud = (s.reset id after).1 }))
    unfolding reset_unless
    reboot-once = rw decided (
      λ down.
          not_issued srv id (inspect requested_at false actions) seen
            (λ b. inspect-held requested_at false b actions down),
      (λ free once. rw (inspect-free requested_at actions free, once) refl),
      (λ free never off.
          rw (inspect-free requested_at actions free, never, off, reset_unless) (_, refl)),
      (λ free never on.
          rw (inspect-free requested_at actions free, never) (reset-on srv id seen on)),
    )
