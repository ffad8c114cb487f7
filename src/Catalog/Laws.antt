-- ===== src/Catalog/Laws.antt =====
-- What a reader of the catalogue can rely on over any number of refreshes.
use mathlib.Core.Path.{subst}
use karpenter_provider_hclou.Base.{ℕ, zero, suc, ◌≤◌, ◌≡◌, refl, inl, inr, some, arith, sym, ◌∙◌}
use karpenter_provider_hclou.Catalog.{Snapshot, Provider, get, take_over, refresh, run}
use karpenter_provider_hclou.Hcloudapi.Catalog.{Catalog}
use karpenter_provider_hclou.Hcloudapi.Errors.{Result-cases}

module _ (c : Catalog) where
  -- The snapshot served is the one of the counter.
  pub record IsCurrent (p : Provider c) (s : Snapshot) : Type 0 where
    pub served : get p ≡ some s
    pub counted : s.generation ≡ p.generation

  -- `t` is what a reader who had `s` may find later: the same snapshot, or one of a later generation.
  pub data Follows (s t : Snapshot) : Type 0 where
    unchanged : t ≡ s → Follows s t
    newer : suc s.generation ≤ t.generation → Follows s t

  Follows-trans : (s t u : Snapshot) → Follows s t → Follows t u → Follows s u
  Follows-trans s t u (unchanged e) (unchanged f) = unchanged (f ∙ e)
  Follows-trans s t u (unchanged e) (newer h) =
      newer (subst (λ v. suc v.generation ≤ u.generation) e h)
  Follows-trans s t u (newer h) (unchanged f) =
      newer (subst (λ v. suc s.generation ≤ v.generation) (sym f) h)
  Follows-trans s t u (newer h) (newer k) = newer (omega arith)

  refresh-Follows :
      (p : Provider c) (s : Snapshot)
      → IsCurrent p s
      → (t : Snapshot) × IsCurrent (refresh p).1 t × Follows s t
  unfolding refresh take_over get
  refresh-Follows p s current = elim (Result-cases (c.server_types p.cloud).0) [
    | inr (e, failed) ↦
        rw (failed, refresh)
          (s, record { served = current.served; counted = current.counted }, unchanged refl)
    | inl (types, read) ↦
        rw (read, refresh)
          (_, record { served = refl; counted = refl }, newer (rw current.counted (omega arith)))
  ]

  -- Once there is a snapshot, it is never lost, however many refreshes follow and whichever of them
  -- fail: a later read finds the same snapshot or one with a greater generation, and the generation
  -- of the snapshot served is that of the counter.
  pub run-Follows :
      (turns : ℕ) (p : Provider c) (s : Snapshot)
      → IsCurrent p s
      → (t : Snapshot) × IsCurrent (run turns p) t × Follows s t
  unfolding run
  run-Follows zero p s current = (s, current, unchanged refl)
  run-Follows (suc turns) p s current =
      let (t, later, first) = refresh-Follows p s current in
      let (u, last, rest) = run-Follows turns (refresh p).1 t later in
      (u, last, Follows-trans s t u first rest)
