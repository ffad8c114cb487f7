-- ===== src/Bootstrap/CloudInit/Bounds.antt =====
-- How large the user data is, and what it has for a node to join.
use mathlib.Core.Path.{subst}
use karpenter_provider_hclou.Base.{
  ◌≤◌, ◌<◌, ◌≡◌, ◌⊎◌, refl, inl, inr, String, arith, leb, ltb, length, Bool-cases,
  string_comparable,
}
use karpenter_provider_hclou.Base.Texts.{codes, byte_length}
use karpenter_provider_hclou.Bootstrap.ClusterInfo.{Bytes}
use karpenter_provider_hclou.Bootstrap.CloudInit.{
  max_user_data_bytes, gzip_threshold_bytes, UserData, plain, gzipped, size, maybe_compress,
}
use karpenter_provider_hclou.Hcloudapi.Errors.{Result, ok, Result-cases, ok_injective, err-ne-ok}

-- The document itself, where it is short, or the gzip stream of it.
abbrev pub IsEncoded : (String → Result Bytes) → String → UserData → Type 0
IsEncoded gzip doc out =
    ((out ≡ plain doc) × (byte_length (codes doc) ≤ gzip_threshold_bytes))
    ⊎ ((bytes : Bytes) × (gzip doc ≡ ok bytes)
        × (out ≡ gzipped bytes)
        × (gzip_threshold_bytes < byte_length (codes doc)))

-- What `maybe_compress` returns is within the limit of the API for user data, and is the document
-- itself up to the threshold, the gzip stream of it above.
pub maybe_compress-IsEncoded :
    (gzip : String → Result Bytes) (doc : String) (out : UserData)
    → maybe_compress gzip doc ≡ ok out
    → (size out ≤ max_user_data_bytes) × IsEncoded gzip doc out
unfolding maybe_compress size
maybe_compress-IsEncoded gzip doc out h =
    elim (Bool-cases (leb (byte_length (codes doc)) gzip_threshold_bytes)) [
      | inl short ↦ elim (Bool-cases (ltb max_user_data_bytes (byte_length (codes doc)))) [
        | inl over ↦ absurd (err-ne-ok (rw (short, over, maybe_compress) at h))
        | inr fits ↦
            subst (λ out. (size out ≤ max_user_data_bytes) × IsEncoded gzip doc out)
              (ok_injective (rw (short, fits, maybe_compress) at h))
              (ground arith, inl (refl, ground arith))
      ]
      | inr long ↦ elim (Result-cases (gzip doc)) [
        | inr (e, failed) ↦ absurd (err-ne-ok (rw (long, failed, maybe_compress) at h))
        | inl (bytes, zipped) ↦ elim (Bool-cases (ltb max_user_data_bytes (length bytes))) [
          | inl over ↦ absurd (err-ne-ok (rw (long, zipped, over, maybe_compress) at h))
          | inr fits ↦
              subst (λ out. (size out ≤ max_user_data_bytes) × IsEncoded gzip doc out)
                (ok_injective (rw (long, zipped, fits, maybe_compress) at h))
                (ground arith, inr (bytes, zipped, refl, ground arith))
        ]
      ]
    ]
