-- ===== src/Base/Texts.antt =====
-- Texts: Go's strings, what the program uses of package strings, and texts as lists of code points.
use Prim.Native.Char.{Char, code}
use Prim.Native.String.{String}
use Prim.Native.Nat.{ℕ, zero, suc, ◌+◌}
use mathlib.Core.List.{List, [], ◌∷◌}
use mathlib.Core.Option.{Option, none, some}
use karpenter_provider_hclou.Base.Tests.{ltb, if◌then◌else◌, ◌==◌, nat_comparable}

abbrev pub Text : Type 0
Text = List ℕ

abbrev pub codes : String → Text
codes String.[] = []
codes (String.◌∷◌ c s) = code c ∷ codes s

-- The bytes that a code point takes in UTF-8.
unfoldable pub width : ℕ → ℕ
width c = if ltb c 128 then 1 else if ltb c 2048 then 2 else if ltb c 65536 then 3 else 4

-- `len`
unfoldable pub byte_length : Text → ℕ
unfolding width
byte_length [] = 0
byte_length (c ∷ s) = width c + byte_length s

-- `s[i]`, where out of range is a panic.
unfoldable pub char_at : String → ℕ → Option Char
char_at String.[] i = none
char_at (String.◌∷◌ c s) zero = some c
char_at (String.◌∷◌ c s) (suc i) = char_at s i

unfoldable pub append_text : String → String → String
append_text String.[] t = t
append_text (String.◌∷◌ c s) t = String.◌∷◌ c (append_text s t)

-- `strings.CutPrefix` of a text and a prefix.
unfoldable pub cut_prefix : String → String → Option String
cut_prefix s String.[] = some s
cut_prefix String.[] (String.◌∷◌ c p) = none
cut_prefix (String.◌∷◌ d s) (String.◌∷◌ c p) =
    let rest = cut_prefix s p in if code d == code c then rest else none

unfoldable pub concat : List String → String
unfolding append_text
concat [] = ""
concat (s ∷ ss) = append_text s (concat ss)

-- `strings.Join` of the parts, with a separator.
unfoldable pub join : String → List String → String
unfolding append_text
join separator [] = ""
join separator (s ∷ []) = s
join separator (s ∷ t ∷ ts) = append_text s (append_text separator (join separator (t ∷ ts)))
