-- ===== src/Instance/Reboot/Safety.antt =====
-- Which servers `Reboot` of internal/providers/instance/reboot.go resets.
pub mod Inspected
pub mod Once
use mathlib.Core.Path.{subst}
use karpenter_provider_hclou.Base.{
  ℕ, ◌≡◌, ◌≢◌, refl, sym, ◌∙◌, ◌⊎◌, inl, inr, Bool, true, false, ◌&&◌, not, Option, none, some,
  List, String, arith, Bool-cases, if◌then◌else◌, ◌==◌, string_comparable, eq_iff,
}
use karpenter_provider_hclou.Base.Map.{get}
use karpenter_provider_hclou.Hcloudapi.Errors.{Result, ok, err, Result-cases}
use karpenter_provider_hclou.Hcloudapi.Labels.{is_managed_by, label_node_claim}
use karpenter_provider_hclou.Hcloudapi.ProviderId.{server_id_from_provider_id}
use karpenter_provider_hclou.Hcloudapi.Servers.{Server, Action, Servers}
use karpenter_provider_hclou.Hcloudapi.Servers.Isolated.{Isolated}
use karpenter_provider_hclou.Instance.Reboot.{
  Verdict, held, issued, inspect, reset_unless, reboot_server, reboot_id, reboot,
}
use karpenter_provider_hclou.Instance.World.{World}

module _ (s : Servers) (c : String) (iso : Isolated s) where
  -- The server is this cluster's, its label names the claim, and it is not powered off.
  unfoldable pub Resettable : String → Server → Type 0
  Resettable node_claim_name srv =
      (is_managed_by (some srv) c ≡ true)
      × (get srv.labels label_node_claim ≡ node_claim_name)
      × (srv.status ≢ "off")

  -- A step from `w` changes the server `j` only if `ok`.
  abbrev pub Keeps : ℕ → World s → World s → Type 0
  Keeps j w w' = iso.view w'.cloud j ≡ iso.view w.cloud j

  -- If the server `id` changes, the server read may be reset; every other stays as it is.
  abbrev pub OnlyIf : Type 0 → ℕ → ℕ → World s → World s → Type 0
  OnlyIf P id j w w' = Keeps j w w' ⊎ P

  reset_unless-only :
      (srv : Server) (id j : ℕ) (v : Verdict) (w : World s)
      → Keeps j w (reset_unless c srv id v w).1 ⊎ ((v ≡ issued false) × (srv.status ≢ "off"))
  unfolding reset_unless
  reset_unless-only srv id j (held command) w = inl refl
  reset_unless-only srv id j (issued true) w = inl refl
  reset_unless-only srv id j (issued false) w = elim (Bool-cases (srv.status == "off")) [
    | inl off ↦ inl (rw (off, reset_unless) refl)
    | inr on ↦ inr (refl, ground (arith, eq_iff srv.status "off"))
  ]

  reset_unless-other :
      (srv : Server) (id j : ℕ) (v : Verdict) (w : World s)
      → j ≢ id
      → Keeps j w (reset_unless c srv id v w).1
  unfolding reset_unless
  reset_unless-other srv id j (held command) w n = refl
  reset_unless-other srv id j (issued true) w n = refl
  reset_unless-other srv id j (issued false) w n = elim (Bool-cases (srv.status == "off")) [
    | inl off ↦ rw (off, reset_unless) refl
    | inr on ↦ elim (Result-cases (s.reset id w.cloud).0) [
      | inr (e, failed) ↦ rw (on, failed, reset_unless) (iso.reset_local id j w.cloud n)
      | inl (_, done) ↦ rw (on, done, reset_unless) (iso.reset_local id j w.cloud n)
    ]
  ]

  -- What one call of `Reboot` after its read does to the server `j`: nothing, unless it is the
  -- server `id` and that one may be reset.
  abbrev pub Spares : ℕ → ℕ → String → Server → World s → World s → Type 0
  Spares id j name srv w w' = (j ≢ id → Keeps j w w') × (Keeps j w w' ⊎ Resettable name srv)

  keep_all :
      (id j : ℕ) (name : String) (srv : Server) (w w' : World s)
      → Keeps j w w'
      → Spares id j name srv w w'
  keep_all id j name srv w w' k = (λ _. k, inl k)

  module _ (srv : Server) (id j : ℕ) (name : String) (t : ℕ) (w : World s)
      (mine : is_managed_by (some srv) c ≡ true)
      (claimed : get srv.labels label_node_claim ≡ name) where
    -- The state once the actions are read.
    abbrev read : World s
    read = record w { cloud = (s.recent_actions id w.cloud).1 }

    after_actions : (v : Verdict) → Spares id j name srv w (reset_unless c srv id v read).1
    unfolding Resettable
    after_actions v = (
      λ n. reset_unless-other srv id j v read n ∙ iso.actions_keeps id j w.cloud,
      elim (reset_unless-only srv id j v read) [
        | inl k ↦ inl (k ∙ iso.actions_keeps id j w.cloud)
        | inr (_, on) ↦ inr (mine, claimed, on)
      ],
    )

  reboot_server-Spares :
      (srv : Server) (id j : ℕ) (name : String) (t : ℕ) (w : World s)
      → Spares id j name srv w (reboot_server c srv id name t w).1
  unfolding reboot_server
  reboot_server-Spares srv id j name t w = elim (Bool-cases (is_managed_by (some srv) c)) [
    | inr foreign ↦ rw (foreign, reboot_server) (keep_all id j name srv w w refl)
    | inl mine ↦ elim (Bool-cases (get srv.labels label_node_claim == name)) [
      | inr other ↦ rw (mine, other, reboot_server) (keep_all id j name srv w w refl)
      | inl claimed ↦ elim (Result-cases (s.recent_actions id w.cloud).0) [
        | inr (e, failed) ↦
            rw (mine, claimed, failed, reboot_server)
              (keep_all id j name srv w
                (read srv id j name t w mine
                  ((eq_iff (get srv.labels label_node_claim) name).0 claimed))
                (iso.actions_keeps id j w.cloud))
        | inl (actions, found) ↦
            rw (mine, claimed, found, reboot_server)
              (after_actions srv id j name t w mine
                ((eq_iff (get srv.labels label_node_claim) name).0 claimed)
                (inspect t false actions))
      ]
    ]
  ]

  -- The server `j` of a state.
  same_server :
      (w : World s) (id j : ℕ) (srv found : Server)
      → iso.view w.cloud j ≡ some srv
      → (s.get id w.cloud).0 ≡ ok (some found)
      → j ≡ id
      → found ≡ srv
  same_server w id j srv found there seen e =
      let view =
        iso.get_reads id w.cloud (s.get id w.cloud).1 (some found)
          (λ i. (seen i, (s.get id w.cloud).1)) in
      let same : some found ≡ some srv = sym view ∙ rw (sym e) there in cc

  reboot_id-spares :
      (provider_id : String) (id : ℕ) (name : String) (t : ℕ) (w : World s) (j : ℕ) (srv : Server)
      → iso.view w.cloud j ≡ some srv
      → ¬ Resettable name srv
      → Keeps j w (reboot_id c provider_id id name t w).1
  unfolding reboot_id
  reboot_id-spares provider_id id name t w j srv there bad =
      let kept = iso.get_keeps id j w.cloud in
      elim (Result-cases (s.get id w.cloud).0) [
        | inr (e, failed) ↦ rw (failed, reboot_id) kept
        | inl (none, gone) ↦ rw (gone, reboot_id) kept
        | inl (some found, seen) ↦
            let w' = record w { cloud = (s.get id w.cloud).1 } in
            let spared = reboot_server-Spares found id j name t w' in
            rw (seen, reboot_id)
              (elim (spared.1) [
                | inl k ↦ k ∙ kept
                | inr may ↦
                    spared.0 (λ e. absurd (
                      bad
                        (subst (Resettable name) (same_server w id j srv found there seen e) may)))
                    ∙ kept
              ])
      ]

  -- `Reboot` never changes a server that is not this cluster's, that does not carry the claim's name
  -- in its label, or that is powered off, whatever provider id and claim it is called with.
  pub reboot-spares :
      (provider_id name : String) (requested_at : ℕ) (w : World s) (j : ℕ) (srv : Server)
      → iso.view w.cloud j ≡ some srv
      → ¬ Resettable name srv
      → iso.view (reboot c provider_id name requested_at w).1.cloud j ≡ some srv
  unfolding reboot
  reboot-spares provider_id name t w j srv there bad =
      elim (Result-cases (server_id_from_provider_id provider_id)) [
        | inr (e, wrong) ↦ rw (wrong, reboot) there
        | inl (id, parsed) ↦
            rw (parsed, reboot) (reboot_id-spares provider_id id name t w j srv there bad ∙ there)
      ]
