-- ===== src/Hcloudapi/ProviderId/Accepted.antt =====
-- Which provider ids are accepted.
use karpenter_provider_hclou.Base.{
  ℕ, ◌≡◌, ◌<◌, ◌^◌, inl, inr, true, false, some, String, arith, Option-cases,
}
use karpenter_provider_hclou.Hcloudapi.Errors.{ok}
use karpenter_provider_hclou.Hcloudapi.ProviderId.{
  parse_int, cut_prefix, provider_id_prefix, is_positive, server_id_from_provider_id,
}

parse_int-bound : (s : String) (n : ℕ) → parse_int s ≡ some (false, n) → n < 2 ^ 63
unfolding parse_int
parse_int-bound String.[] n h = absurd (cc)
parse_int-bound (String.◌∷◌ c s) n h = ground arith

-- An id that is read from a provider id is positive and fits into an int64.
server_id_from_provider_id-bound :
    (provider_id : String) (id : ℕ)
    → server_id_from_provider_id provider_id ≡ ok id
    → (0 < id) × (id < 2 ^ 63)
unfolding server_id_from_provider_id is_positive
server_id_from_provider_id-bound p id h = elim (Option-cases (cut_prefix p provider_id_prefix)) [
  | inl foreign ↦ absurd (ground arith)
  | inr (rest, mine) ↦ elim (Option-cases (parse_int rest)) [
    | inl bad ↦ absurd (ground arith)
    | inr ((true, n), read) ↦ absurd (ground arith)
    | inr ((false, n), read) ↦ let b = parse_int-bound rest n read in (ground arith, ground arith)
  ]
]
