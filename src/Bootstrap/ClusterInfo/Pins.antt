-- ===== src/Bootstrap/ClusterInfo/Pins.antt =====
-- That a pin has the form kubeadm takes.
use Prim.Native.Char.{Char, code}
use karpenter_provider_hclou.Base.{
  ℕ, zero, suc, ◌*◌, ◌/◌, ◌%◌, ◌≡◌, refl, inl, inr, Bool, true, some, [], ◌∷◌, ◌&&◌, String, arith,
  length, Option-cases, nat_comparable,
}
use karpenter_provider_hclou.Base.Texts.{
  codes, width, byte_length, append_text, cut_prefix, char_at,
}
use karpenter_provider_hclou.Bootstrap.ClusterInfo.{
  Bytes, hextable, hex_digit, encode_hex, is_hex, decodes_hex, valid_hash, pin,
}

char_at-is_hex :
    (s : String) (n : ℕ) (c : Char)
    → decodes_hex s ≡ true
    → char_at s n ≡ some c
    → is_hex (code c) ≡ true
unfolding char_at decodes_hex
char_at-is_hex String.[] n c h found = absurd (ground arith)
char_at-is_hex (String.◌∷◌ d s) zero c h found =
    let same : d ≡ c = cc in rw (← same) (first (is_hex (code d)) (decodes_hex s) h)
  where
    first : (a b : Bool) → (a && b) ≡ true → a ≡ true
    first a b h = ground arith
char_at-is_hex (String.◌∷◌ d s) (suc n) c h found = char_at-is_hex s n c (ground arith) found

hex_digit-is_hex : (n : ℕ) → is_hex (code (hex_digit n)) ≡ true
unfolding hex_digit is_hex decodes_hex
hex_digit-is_hex n = elim (Option-cases (char_at hextable n)) [
  | inl outside ↦ rw (outside, hex_digit) (is_hex_zero)
  | inr (c, found) ↦ rw (found, hex_digit) (char_at-is_hex hextable n c table found)
]
  where
    is_hex_zero : is_hex b'0' ≡ true
    is_hex_zero = refl

    table : decodes_hex hextable ≡ true
    table = refl

is_hex-width : (c : ℕ) → is_hex c ≡ true → width c ≡ 1
unfolding is_hex width
is_hex-width c h = ground arith

encode_hex-decodes_hex : (bs : Bytes) → decodes_hex (encode_hex bs) ≡ true
unfolding encode_hex decodes_hex
encode_hex-decodes_hex [] = refl
encode_hex-decodes_hex (b ∷ bs) =
    rw (hex_digit-is_hex (b / 16), hex_digit-is_hex (b % 16), encode_hex-decodes_hex bs) refl

byte_length-encode_hex : (bs : Bytes) → byte_length (codes (encode_hex bs)) ≡ 2 * length bs
unfolding encode_hex byte_length
byte_length-encode_hex [] = refl
byte_length-encode_hex (b ∷ bs) =
    let high = is_hex-width _ (hex_digit-is_hex (b / 16)) in
    let low = is_hex-width _ (hex_digit-is_hex (b % 16)) in
    rw (high, low, byte_length-encode_hex bs) (omega arith)

pub valid_hash-pin : (sum : Bytes) → length sum ≡ 32 → valid_hash (pin sum) ≡ true
unfolding valid_hash pin append_text cut_prefix
valid_hash-pin sum h = rw (byte_length-encode_hex sum, h, encode_hex-decodes_hex sum) refl
