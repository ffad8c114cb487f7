-- ===== src/Instancetype/Unavailable.antt =====
-- internal/providers/instancetype/unavailable.go: pairs of a server type and a location that
-- recently failed to provision. Its lock makes every method atomic, so a method is a function on
-- the state; `now` is what the clock says when the method reads it.
pub mod Laws
use karpenter_provider_hclou.Base.{
  ℕ, ◌+◌, ◌*◌, Bool, true, false, ◌&&◌, Option, none, some, List, [], ◌∷◌, map, String, length,
  find, keep, ltb, not, if◌then◌else◌, ◌==◌, string_comparable,
}
use karpenter_provider_hclou.Hcloudapi.Errors.{ErrorCode}

-- A key of the map with its value.
pub record Entry : Type 0 where
  pub server_type : String
  pub location : String
  pub until : ℕ
  pub code : ErrorCode

-- `items` lists the map in the order in which `range` happens to meet its keys.
pub record Unavailable : Type 0 where
  pub ttl : ℕ
  pub items : List Entry

abbrev pub default_unavailable_ttl : ℕ
default_unavailable_ttl = 5 * 60 * 1_000_000_000

unfoldable pub new_unavailable : Unavailable
new_unavailable = record { ttl = default_unavailable_ttl; items = [] }

unfoldable pub same_key : String → String → Entry → Bool
same_key server_type location e = e.server_type == server_type && e.location == location

-- `items[key{serverType, location}] = e` for an `e` with that key.
unfoldable pub put : Entry → List Entry → List Entry
unfolding same_key
put e [] = e ∷ []
put e (x ∷ xs) = if same_key e.server_type e.location x then e ∷ xs else x ∷ put e xs

unfoldable pub mark : Unavailable → ℕ → String → String → ErrorCode → Unavailable
unfolding put
mark u now server_type location code = record u {
  items =
      put
        (record {
          server_type = server_type;
          location = location;
          until = now + u.ttl;
          code = code;
        })
        u.items;
}

unfoldable pub suppress : ℕ → String → ErrorCode → Entry → Entry
suppress until location code e =
    if e.location == location then record e { until = until; code = code } else e

unfoldable pub mark_location : Unavailable → ℕ → String → ErrorCode → Unavailable
unfolding suppress
mark_location u now location code = record u {
  items = map (suppress (now + u.ttl) location code) u.items;
}

unfoldable pub has : Unavailable → ℕ → String → String → Bool
unfolding same_key
has u now server_type location = elim (find (same_key server_type location) u.items) [
  | none ↦ false
  | some e ↦ ltb now e.until
]

-- `Code`; `none` is `"", false`.
unfoldable pub code : Unavailable → ℕ → String → String → Option ErrorCode
unfolding same_key
code u now server_type location = elim (find (same_key server_type location) u.items) [
  | none ↦ none
  | some e ↦ if not (ltb now e.until) then none else some e.code
]

pub record Suppression : Type 0 where
  pub server_type : String
  pub location : String
  pub code : ErrorCode

unfoldable pub suppression : Entry → Suppression
suppression e = record { server_type = e.server_type; location = e.location; code = e.code }

-- Is the entry kept by `Snapshot`?
unfoldable pub live : ℕ → Entry → Bool
live now e = ltb now e.until

unfoldable pub snapshot : Unavailable → ℕ → List Suppression × Unavailable
unfolding suppression live
snapshot u now =
    let kept = keep (live now) u.items in (map suppression kept, record u { items = kept })

unfoldable pub len : Unavailable → ℕ → ℕ × Unavailable
unfolding snapshot
len u now = let (out, u') = snapshot u now in (length out, u')
