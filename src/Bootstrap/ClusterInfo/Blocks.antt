-- ===== src/Bootstrap/ClusterInfo/Blocks.antt =====
-- The loop over PEM blocks: it ends, and it hashes the certificates in their order.
use mathlib.Core.Path.{subst}
use karpenter_provider_hclou.Base.{
  ℕ, zero, suc, ◌≡◌, ◌<◌, refl, inl, inr, true, false, none, some, List, [], ◌∷◌, String, arith,
  length, if◌then◌else◌, keep, is_empty, All, Option-cases, Bool-cases, ◌==◌, string_comparable,
}
use karpenter_provider_hclou.Bootstrap.ClusterInfo.{
  Bytes, Block, Decoding, valid_hash, hash_certificate, collect_hashes, ca_cert_hashes,
}
use karpenter_provider_hclou.Bootstrap.ClusterInfo.Pins.{valid_hash-pin}
use karpenter_provider_hclou.Hcloudapi.Errors.{
  errorf, Result, ok, err, Result-cases, ok_injective, err-ne-ok,
}

-- What the loop relies on: a block takes bytes, and a SHA-256 hash has 32 of them.
pub record IsDecoding (d : Decoding) : Type 0 where
  pub shorter :
      (bytes rest : Bytes) (block : Block)
      → d.decode bytes ≡ some (block, rest)
      → length rest < length bytes
  pub digest : (bytes : Bytes) → length (d.sum256 bytes) ≡ 32

module _ (d : Decoding) where
  -- The blocks of a text, one after the other, to the end.
  pub data Blocks : Bytes → List Block → Type 0 where
    end : {bytes : Bytes} → d.decode bytes ≡ none → Blocks bytes []
    block_then :
        {bytes rest : Bytes} {block : Block} {blocks : List Block}
        → d.decode bytes ≡ some (block, rest)
        → Blocks rest blocks
        → Blocks bytes (block ∷ blocks)

  -- The pins of certificates, or the first error.
  hash_all : List Block → Result (List String)
  hash_all [] = ok []
  hash_all (block ∷ blocks) = elim (hash_certificate d block.bytes) [
    | err e ↦ err e
    | ok hash ↦ elim (hash_all blocks) [ err e ↦ err e | ok hashes ↦ ok (hash ∷ hashes) ]
  ]

  abbrev certificates : List Block → List Block
  certificates = keep (λ block. block.kind == "CERTIFICATE")

  -- The result of the loop and the blocks it is of.
  Hashed : ℕ → Bytes → Type 0
  Hashed rounds bytes =
      (blocks : List Block) × Blocks bytes blocks
      × (collect_hashes d rounds bytes ≡ some (hash_all (certificates blocks)))

  collect_hashes-more :
      (rounds : ℕ) (bytes rest : Bytes) (block : Block) (blocks : List Block)
      → d.decode bytes ≡ some (block, rest)
      → collect_hashes d rounds rest ≡ some (hash_all (certificates blocks))
      → collect_hashes d (suc rounds) bytes ≡ some (hash_all (certificates (block ∷ blocks)))
  unfolding collect_hashes hash_all
  collect_hashes-more rounds bytes rest block blocks more later =
      elim (Bool-cases (block.kind == "CERTIFICATE")) [
        | inr other ↦ rw (more, other, collect_hashes) later
        | inl certificate ↦ elim (Result-cases (hash_certificate d block.bytes)) [
          | inr (e, failed) ↦ rw (more, certificate, failed, collect_hashes, hash_all) refl
          | inl (hash, hashed) ↦ elim (Result-cases (hash_all (certificates blocks))) [
            | inr (e, failed) ↦
                rw (more, certificate, hashed, later, failed, collect_hashes, hash_all) refl
            | inl (hashes, done) ↦
                rw (more, certificate, hashed, later, done, collect_hashes, hash_all) refl
          ]
        ]
      ]

  collect_hashes-Hashed :
      IsDecoding d → (rounds : ℕ) (bytes : Bytes) → length bytes < rounds → Hashed rounds bytes
  unfolding collect_hashes hash_all Hashed
  collect_hashes-Hashed good zero bytes h = absurd (omega arith)
  collect_hashes-Hashed good (suc rounds) bytes h = elim (Option-cases (d.decode bytes)) [
    | inl over ↦ ([], end over, rw (over, collect_hashes, hash_all) refl)
    | inr ((block, rest), more) ↦
        let less = good.shorter bytes rest block more in
        let (blocks, chain, later) = collect_hashes-Hashed good rounds rest (omega arith) in
        (
          block ∷ blocks,
          block_then more chain,
          collect_hashes-more rounds bytes rest block blocks more later,
        )
  ]

  -- What a bundle is worth: the pins of its certificates, of which there is at least one.
  pub pins_of : List Block → Result (List String)
  pins_of blocks = elim (hash_all (certificates blocks)) [
    | err e ↦ err e
    | ok hashes ↦
        if is_empty hashes
        then err (errorf "no CERTIFICATE block in certificate-authority-data" [])
        else ok hashes
  ]

  -- On every text, whatever its blocks are, the loop that hashes a bundle ends: with the pin of each
  -- block that is a certificate, in the order of the text, or with the first error, or with an error
  -- where there is no certificate. Decoding a block must leave fewer bytes than it was given.
  pub ca_cert_hashes-pins_of :
      IsDecoding d
      → (bytes : Bytes)
      → (blocks : List Block) × Blocks bytes blocks × (ca_cert_hashes d bytes ≡ pins_of blocks)
  unfolding ca_cert_hashes pins_of Hashed
  ca_cert_hashes-pins_of good bytes =
      let (blocks, chain, hashed) =
        collect_hashes-Hashed good (suc (length bytes)) bytes (omega arith) in
      (blocks, chain, rw (hashed, ca_cert_hashes, pins_of) refl)

  abbrev pub AreValid : List String → Type 0
  AreValid = All (λ hash. valid_hash hash ≡ true)

  hash_certificate-valid :
      IsDecoding d
      → (der : Bytes) (hash : String) → hash_certificate d der ≡ ok hash
      → valid_hash hash ≡ true
  unfolding hash_certificate
  hash_certificate-valid good der hash h = elim (Result-cases (d.parse_certificate der)) [
    | inr (e, failed) ↦ absurd (err-ne-ok (rw (failed, hash_certificate) at h))
    | inl (key, parsed) ↦ elim (Result-cases (d.marshal_key key)) [
      | inr (e, failed) ↦ absurd (err-ne-ok (rw (parsed, failed, hash_certificate) at h))
      | inl (spki, marshalled) ↦
          subst (λ s. valid_hash s ≡ true)
            (ok_injective (rw (parsed, marshalled, hash_certificate) at h))
            (valid_hash-pin (d.sum256 spki) (good.digest spki))
    ]
  ]

  hash_all-valid :
      IsDecoding d
      → (blocks : List Block) (hashes : List String) → hash_all blocks ≡ ok hashes
      → AreValid hashes
  unfolding hash_all
  hash_all-valid good [] hashes h = subst AreValid (ok_injective h) tt
  hash_all-valid good (block ∷ blocks) hashes h =
      elim (Result-cases (hash_certificate d block.bytes)) [
        | inr (e, failed) ↦ absurd (err-ne-ok (rw (failed, hash_all) at h))
        | inl (hash, hashed) ↦ elim (Result-cases (hash_all blocks)) [
          | inr (e, failed) ↦ absurd (err-ne-ok (rw (hashed, failed, hash_all) at h))
          | inl (later, done) ↦ subst AreValid (ok_injective (rw (hashed, done, hash_all) at h)) (
            hash_certificate-valid good block.bytes hash hashed,
            hash_all-valid good blocks later done,
          )
        ]
      ]

  pub ca_cert_hashes-valid :
      IsDecoding d
      → (bytes : Bytes) (hashes : List String) → ca_cert_hashes d bytes ≡ ok hashes
      → (is_empty hashes ≡ false) × AreValid hashes
  unfolding pins_of
  ca_cert_hashes-valid good bytes hashes h =
      let (blocks, chain, same) = ca_cert_hashes-pins_of good bytes in
      elim (Result-cases (hash_all (certificates blocks))) [
        | inr (e, failed) ↦ absurd (err-ne-ok (rw (same, failed, pins_of) at h))
        | inl (found, done) ↦ elim (Bool-cases (is_empty found)) [
          | inl nothing ↦ absurd (err-ne-ok (rw (same, done, nothing, pins_of) at h))
          | inr something ↦
              subst (λ hs. (is_empty hs ≡ false) × AreValid hs)
                (ok_injective (rw (same, done, something, pins_of) at h))
                (something, hash_all-valid good (certificates blocks) found done)
        ]
      ]
