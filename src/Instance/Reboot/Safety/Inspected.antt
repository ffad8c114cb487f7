-- ===== src/Instance/Reboot/Safety/Inspected.antt =====
-- What the loop of `Reboot` over the recent actions finds.
use karpenter_provider_hclou.Base.{
  ℕ, ◌≡◌, ◌≢◌, refl, inl, inr, Bool, true, false, ◌&&◌, not, List, [], ◌∷◌, exists, Bool-cases,
  if◌then◌else◌, ◌==◌, string_comparable,
}
use karpenter_provider_hclou.Hcloudapi.Servers.{Action}
use karpenter_provider_hclou.Instance.Reboot.{issued, held_down, is_issued_reset, inspect}

-- An action that did not fail and that holds the server down.
unfoldable pub holds : Action → Bool
holds a = not (a.status == "error") && held_down a.command

-- A reset that did not fail and that was issued since the reboot was asked for.
unfoldable pub resets : ℕ → Action → Bool
resets requested_at a = not (a.status == "error") && is_issued_reset requested_at a

true_not_false : true ≢ false
true_not_false e = cc

inspect-true :
    (t : ℕ) (rest : List Action) → exists holds rest ≡ false → inspect t true rest ≡ issued true
unfolding inspect holds
inspect-true t [] h = refl
inspect-true t (a ∷ rest) h = elim (Bool-cases (a.status == "error")) [
  | inl failed ↦ rw (failed, inspect) (inspect-true t rest (rw (failed, holds) at h))
  | inr done ↦ elim (Bool-cases (held_down a.command)) [
    | inl down ↦ absurd (true_not_false (rw (done, down, holds) at h))
    | inr free ↦ elim (Bool-cases (is_issued_reset t a)) [
      | inl reset ↦
          rw (done, free, reset, inspect) (inspect-true t rest (rw (done, free, holds) at h))
      | inr other ↦
          rw (done, free, other, inspect) (inspect-true t rest (rw (done, free, holds) at h))
    ]
  ]
]

-- Where no action holds the server down, the loop finds whether a reset was issued: one that did
-- not fail, and that started no earlier than a reboot that was really asked for.
pub inspect-free :
    (requested_at : ℕ) (actions : List Action)
    → exists holds actions ≡ false
    → inspect requested_at false actions ≡ issued (exists (resets requested_at) actions)
unfolding inspect holds resets
inspect-free t [] h = refl
inspect-free t (a ∷ rest) h = elim (Bool-cases (a.status == "error")) [
  | inl failed ↦ rw (failed, inspect, resets) (inspect-free t rest (rw (failed, holds) at h))
  | inr done ↦ elim (Bool-cases (held_down a.command)) [
    | inl down ↦ absurd (true_not_false (rw (done, down, holds) at h))
    | inr free ↦ elim (Bool-cases (is_issued_reset t a)) [
      | inl reset ↦
          rw (done, free, reset, inspect, resets)
            (inspect-true t rest (rw (done, free, holds) at h))
      | inr other ↦
          rw (done, free, other, inspect, resets)
            (inspect-free t rest (rw (done, free, holds) at h))
    ]
  ]
]

-- Where some action that did not fail holds the server down, the loop never finds that it may go on.
pub inspect-held :
    (requested_at : ℕ) (so_far b : Bool) (actions : List Action)
    → exists holds actions ≡ true
    → inspect requested_at so_far actions ≢ issued b
unfolding inspect holds
inspect-held t f b [] h = absurd (cc)
inspect-held t f b (a ∷ rest) h = elim (Bool-cases (a.status == "error")) [
  | inl failed ↦ rw (failed, inspect) (inspect-held t f b rest (rw (failed, holds) at h))
  | inr done ↦ elim (Bool-cases (held_down a.command)) [
    | inl down ↦ rw (done, down, inspect) (λ e. absurd (cc))
    | inr free ↦
        rw (done, free, inspect)
          (inspect-held t (if is_issued_reset t a then true else f) b rest
            (rw (done, free, holds) at h))
  ]
]
