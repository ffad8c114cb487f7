-- ===== src/Base/Map.antt =====
-- Go's maps with string keys: association lists without a key twice, in the order in which a
-- `range` loop happens to meet the keys.
use Prim.Native.String.{String}
use mathlib.Core.Path.{◌≡◌, refl}
use mathlib.Core.List.{List, [], ◌∷◌}
use mathlib.Core.Option.{Option, none, some}
use native.Mathlib.Omega.{arith}
use text.Mathlib.TextEquality.{eq_iff}
use karpenter_provider_hclou.Base.Tests.{if◌then◌else◌, ◌==◌, string_comparable}

abbrev pub Map : Type 0 → Type 0
Map V = List (String × V)

module _ {V : Type 0} where
  -- `v, ok := m[name]`
  unfoldable pub lookup : String → Map V → Option V
  lookup name [] = none
  lookup name (e ∷ rest) = if e.0 == name then some e.1 else lookup name rest

  -- `m[name] = value`
  unfoldable pub insert : String → V → Map V → Map V
  insert name value [] = (name, value) ∷ []
  insert name value (e ∷ rest) =
      if e.0 == name then (name, value) ∷ rest else e ∷ insert name value rest

  -- A read of the name that was written finds the new value; any other read is as before.
  pub lookup-insert :
      (written read : String) (value : V) (entries : Map V)
      → lookup read (insert written value entries)
        ≡ (if written == read then some value else lookup read entries)
  unfolding lookup insert
  lookup-insert written read value [] = refl
  lookup-insert written read value (e ∷ rest) =
      let ih = lookup-insert written read value rest in
      ground (arith, eq_iff e.0 read, eq_iff e.0 written, eq_iff written read)

-- `m[k]` on a map of strings: the empty text where the key is missing.
unfoldable pub get : Map String → String → String
unfolding lookup
get m k = elim (lookup k m) [ none ↦ "" | some v ↦ v ]
