-- ===== src/Tests/Sweeping.antt =====
-- Sweeps: one orphan, one young server and one server with a live claim.
use mathlib.Core.Path.{subst}
use karpenter_provider_hclou.Base.{
  ◌*◌, ◌≡◌, ◌≢◌, refl, inl, inr, true, false, List, [], ◌∷◌, String, arith, contains,
  string_comparable, eq_iff, is_empty, sym,
}
use karpenter_provider_hclou.Base.Map.{get}
use karpenter_provider_hclou.Hcloudapi.Errors.{ok}
use karpenter_provider_hclou.Hcloudapi.ProviderId.{provider_id}
use karpenter_provider_hclou.Hcloudapi.Servers.{Server}
use karpenter_provider_hclou.Controllers.Instancegc.{Provider, Gc, is_orphan, reconcile}
use karpenter_provider_hclou.Controllers.Instancegc.Laws.{Protects, Excused, reconcile-spares}
use karpenter_provider_hclou.Controllers.Instancegc.Reaps.{Removes, reconcile-reaps}
use karpenter_provider_hclou.Tests.Memory.{ours, second}

abbrev orphan : Server
orphan = record ours { id = 9; labels = ("karpenter.itsh.dev/nodeclaim", "gone") ∷ [] }

-- The state is the list of the provider ids that were deleted.
abbrev ledger : Provider
ledger = record {
  State = List String;
  now = λ st. 2000 * second;
  list = λ st. (ok (ours ∷ orphan ∷ []), st);
  delete = λ id st. (ok tt, id ∷ st);
  node_claims = λ st. (ok ("claim-1" ∷ []), st);
}

abbrev idle : Gc ledger
idle = record { state = []; orphans_reaped = 0 }

abbrev Untouched : List String → Type 0
Untouched st = contains "hcloud://7" st ≡ false

Untouched-Protects : Protects ledger "hcloud://7" Untouched
Untouched-Protects = record {
  list_keeps = λ st h. h;
  claims_keeps = λ st h. h;
  delete_keeps = λ id st n h. ground (arith, eq_iff "hcloud://7" id);
}

impossible : false ≢ true
impossible e = cc

Excused-here : Excused ledger "hcloud://7" Untouched ("claim-1" ∷ []) (ours ∷ orphan ∷ [])
unfolding is_orphan provider_id get
Excused-here srv (inl e) id st h =
    subst (λ x. is_orphan ("claim-1" ∷ []) (2000 * second) x ≡ false) (sym e) refl
Excused-here srv (inr (inl e)) id st h = absurd (
    impossible
      ((eq_iff (provider_id 9) "hcloud://7").1 (subst (λ x. provider_id x.id ≡ "hcloud://7") e id)))
Excused-here srv (inr (inr out)) id st h = absurd out

excused :
    (servers : List Server) (live : List String)
    → (ledger.list []).0 ≡ ok servers
    → (ledger.node_claims []).0 ≡ ok live
    → is_empty live ≡ false
    → Excused ledger "hcloud://7" Untouched live servers
excused servers live l n e =
    let servers_eq : (ours ∷ orphan ∷ []) ≡ servers = cc in
    let live_eq : ("claim-1" ∷ []) ≡ live = cc in
    subst (λ x. Excused ledger "hcloud://7" Untouched x servers) live_eq
      (subst (Excused ledger "hcloud://7" Untouched ("claim-1" ∷ [])) servers_eq Excused-here)

reconcile-spares_example : Untouched (reconcile ledger "c1" idle).1.state
reconcile-spares_example =
    reconcile-spares ledger "hcloud://7" Untouched "c1" idle Untouched-Protects excused refl

abbrev Deleted : List String → Type 0
Deleted st = contains "hcloud://9" st ≡ true

Deleted-Removes : Removes ledger "hcloud://9" Deleted
Deleted-Removes = record {
  delete_done = λ st h. refl;
  delete_missed = λ st e h k. refl;
  delete_keeps = λ id st h. ground (arith, eq_iff "hcloud://9" id);
  clock = λ id st. omega arith;
}

reconcile-reaps_example : Deleted (reconcile ledger "c1" idle).1.state
unfolding reconcile provider_id is_orphan get
reconcile-reaps_example =
    reconcile-reaps ledger "hcloud://9" Deleted "c1" idle (2 * 60 * second) (ours ∷ orphan ∷ [])
      ("claim-1" ∷ []) [] [] orphan Deleted-Removes (λ e. cc) refl refl refl (inr (inl refl)) refl
      refl refl
