-- ===== src/Controllers/Instancegc.antt =====
-- internal/controllers/instancegc/controller.go: the sweep that deletes servers whose NodeClaim is
-- gone.
pub mod Laws
pub mod Reaps
use karpenter_provider_hclou.Base.{
  ℕ, suc, ◌*◌, Bool, true, false, ◌&&◌, ◌||◌, not, Option, List, [], ◌∷◌, ◌++◌, String, is_empty,
  contains, is_zero_time, elapsed_lt, if◌then◌else◌, ◌==◌, string_comparable,
}
use karpenter_provider_hclou.Base.Map.{get}
use karpenter_provider_hclou.Hcloudapi.Errors.{Error, errorf, wrapf, is_not_found, Result, ok, err}
use karpenter_provider_hclou.Hcloudapi.Labels.{label_node_claim}
use karpenter_provider_hclou.Hcloudapi.ProviderId.{provider_id}
use karpenter_provider_hclou.Hcloudapi.Servers.{Server}

abbrev pub interval : ℕ
interval = 2 * 60 * 1_000_000_000

abbrev pub min_age : ℕ
min_age = 5 * 60 * 1_000_000_000

-- The interface `Provider`, with the clock and the client of the cluster's API, over the state that
-- they share. `node_claims` lists the names of the NodeClaims.
pub record Provider : Type 1 where
  pub State : Type 0
  pub now : State → ℕ
  pub list : State → Result (List Server) × State
  pub delete : String → State → Result (Unit {0}) × State
  pub node_claims : State → Result (List String) × State

-- The metric `OrphansReaped`, next to the state outside.
pub record Gc (p : Provider) : Type 0 where
  pub state : p.State
  pub orphans_reaped : ℕ

-- What `Reconcile` returns: when to run again, or the errors that it combines.
pub data Reconciled : Type 0 where
  requeue_after : ℕ → Reconciled
  failed : List Error → Reconciled

-- The checks before the deletion, at a time.
unfoldable pub is_orphan : List String → ℕ → Server → Bool
is_orphan live now srv =
    let claim = get srv.labels label_node_claim in
    if claim == "" || contains claim live
    then false
    else if is_zero_time srv.created
    then false
    else not (elapsed_lt now srv.created min_age)

module _ (p : Provider) where
  -- The body of the loop: the error to add, if any.
  unfoldable pub reap : Server → Gc p → List Error × Gc p
  reap srv g =
      let (r, state) = p.delete (provider_id srv.id) g.state in
      elim r [
        | ok done ↦ ([], record { state = state; orphans_reaped = suc g.orphans_reaped })
        | err e ↦ (
          (if is_not_found e
              then []
              else wrapf "deleting orphaned server %s, %w" (srv.name ∷ []) e ∷ []),
          record g { state = state },
        )
      ]

  unfoldable pub visit : List String → Server → Gc p → List Error × Gc p
  unfolding is_orphan reap
  visit live srv g = if is_orphan live (p.now g.state) srv then reap srv g else ([], g)

  -- The loop.
  unfoldable pub sweep : List String → List Server → Gc p → List Error × Gc p
  unfolding visit
  sweep live [] g = ([], g)
  sweep live (srv ∷ servers) g =
      let (errs, g') = visit live srv g in
      let (more, g'') = sweep live servers g' in (errs ++ more, g'')

  unfoldable pub finish : List Error × Gc p → Reconciled × Gc p
  finish ([], g) = (requeue_after interval, g)
  finish (e ∷ errs, g) = (failed (e ∷ errs), g)

  -- What follows the listing of the servers.
  unfoldable pub judge : List Server → Gc p → Reconciled × Gc p
  unfolding sweep finish
  judge servers g =
      if is_empty servers
      then (requeue_after interval, g)
      else (let (r, state) = p.node_claims g.state in
          let g' = record g { state = state } in
          elim r [
            | err e ↦ (failed (wrapf "listing nodeclaims, %w" [] e ∷ []), g')
            | ok live ↦
                if is_empty live
                then (requeue_after interval, g')
                else finish (sweep live servers g')
          ])

  unfoldable pub reconcile : String → Gc p → Reconciled × Gc p
  unfolding judge
  reconcile cluster_name g =
      if cluster_name == ""
      then (failed (errorf "cluster name is empty, refusing to garbage collect" [] ∷ []), g)
      else (let (r, state) = p.list g.state in
          let g' = record g { state = state } in
          elim r [
            | err e ↦ (failed (wrapf "listing servers, %w" [] e ∷ []), g')
            | ok servers ↦ judge servers g'
          ])
