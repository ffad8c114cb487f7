-- ===== src/Instance/Reboot.antt =====
-- internal/providers/instance/reboot.go: a hard reset, unless it was issued already or the server is
-- to stay down.
pub mod Safety
use karpenter_provider_hclou.Base.{
  ℕ, Bool, true, false, ◌&&◌, ◌||◌, not, Option, none, some, List, [], ◌∷◌, String, ltb,
  is_zero_time, if◌then◌else◌, ◌==◌, string_comparable,
}
use karpenter_provider_hclou.Base.Map.{get}
use karpenter_provider_hclou.Hcloudapi.Errors.{
  Class, class_fatal, Error, errorf, not_found, not_managed, node_reboot_failed, Result, ok, err,
  classify,
}
use karpenter_provider_hclou.Hcloudapi.Labels.{is_managed_by, label_node_claim}
use karpenter_provider_hclou.Hcloudapi.ProviderId.{server_id_from_provider_id}
use karpenter_provider_hclou.Hcloudapi.Servers.{Server, Action, Servers}
use karpenter_provider_hclou.Instance.World.{World}

abbrev pub command_reset : String
command_reset = "reset_server"

-- The map `heldDown`.
unfoldable pub held_down : String → Bool
held_down command =
    command == "stop_server" || command == "shutdown_server" || command == "enable_rescue"

unfoldable pub is_fatal : Class → Bool
is_fatal class_fatal = true
is_fatal _ = false

unfoldable pub reboot_error : Error → Error
unfolding is_fatal
reboot_error e = if is_fatal (classify (some e)) then node_reboot_failed e else e

-- What the loop over the actions finds: an action that holds the server down, or whether a reset
-- was issued.
pub data Verdict : Type 0 where
  held : String → Verdict
  issued : Bool → Verdict

-- `a.Command == commandReset && !requestedAt.IsZero() && !a.Started.Before(requestedAt)`
unfoldable pub is_issued_reset : ℕ → Action → Bool
is_issued_reset requested_at a =
    a.command == command_reset
    && not (is_zero_time requested_at)
    && not (ltb a.started requested_at)

-- The loop, with its variable `issued`.
unfoldable pub inspect : ℕ → Bool → List Action → Verdict
unfolding held_down is_issued_reset
inspect requested_at so_far [] = issued so_far
inspect requested_at so_far (a ∷ actions) =
    let failed = a.status == "error" in
    let rest =
      inspect requested_at
        (if failed then so_far else if is_issued_reset requested_at a then true else so_far)
        actions in
    if failed then rest else if held_down a.command then held a.command else rest

abbrev refuse : {s : Servers} → Error → World s → Result (Unit {0}) × World s
refuse e w = (err (node_reboot_failed e), w)

module _ {s : Servers} (cluster_name : String) where
  -- The end of `Reboot`, once the actions are read.
  unfoldable pub reset_unless : Server → ℕ → Verdict → World s → Result (Unit {0}) × World s
  unfolding reboot_error
  reset_unless srv id (held command) w =
      refuse
        (errorf "server %q (id %d) has a %s action karpenter did not issue; refusing to reset it"
          (srv.name ∷ command ∷ []))
        w
  reset_unless srv id (issued true) w = (ok tt, w)
  reset_unless srv id (issued false) w =
      if srv.status == "off"
      then refuse (errorf "server %q (id %d) is off; refusing to power it on" (srv.name ∷ [])) w
      else (let (d, cloud) = s.reset id w.cloud in
          let w' = record w { cloud = cloud } in
          elim d [ err e ↦ (err (reboot_error e), w') | ok done ↦ (ok tt, w') ])

  -- `Reboot` once the server is read.
  unfoldable pub reboot_server : Server → ℕ → String → ℕ → World s → Result (Unit {0}) × World s
  unfolding reset_unless inspect
  reboot_server srv id node_claim_name requested_at w =
      if not (is_managed_by (some srv) cluster_name)
      then refuse (not_managed srv.name srv.id) w
      else if not (get srv.labels label_node_claim == node_claim_name)
      then refuse
          (errorf "server %q (id %d) does not belong to nodeclaim %q; refusing to reset it"
            (srv.name ∷ node_claim_name ∷ []))
          w
      else (let (r, cloud) = s.recent_actions id w.cloud in
          let w' = record w { cloud = cloud } in
          elim r [
            | err e ↦ (err (reboot_error e), w')
            | ok actions ↦ reset_unless srv id (inspect requested_at false actions) w'
          ])

  unfoldable pub reboot_id : String → ℕ → String → ℕ → World s → Result (Unit {0}) × World s
  unfolding reboot_server
  reboot_id provider_id id node_claim_name requested_at w =
      let (r, cloud) = s.get id w.cloud in
      let w' = record w { cloud = cloud } in
      elim r [
        | err e ↦ (err (reboot_error e), w')
        | ok none ↦ (err (not_found "server" provider_id), w')
        | ok (some srv) ↦ reboot_server srv id node_claim_name requested_at w'
      ]

  unfoldable pub reboot : String → String → ℕ → World s → Result (Unit {0}) × World s
  unfolding reboot_id
  reboot provider_id node_claim_name requested_at w =
      elim (server_id_from_provider_id provider_id) [
        | err e ↦ (err (node_reboot_failed e), w)
        | ok id ↦ reboot_id provider_id id node_claim_name requested_at w
      ]
