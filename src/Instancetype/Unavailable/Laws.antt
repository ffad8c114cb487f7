-- ===== src/Instancetype/Unavailable/Laws.antt =====
-- What `Has`, `Code` and `Snapshot` say after each way to change the cache.
use karpenter_provider_hclou.Base.{
  ℕ, ◌+◌, ◌≤◌, ◌≡◌, refl, Bool, true, false, ◌&&◌, none, some, List, [], ◌∷◌, map, String, find,
  keep, ltb, if◌then◌else◌, ◌==◌, string_comparable, arith, eq_iff, Option-cases, inl, inr,
}
use karpenter_provider_hclou.Hcloudapi.Errors.{ErrorCode}
use karpenter_provider_hclou.Instancetype.Unavailable.{
  Entry, Unavailable, same_key, put, mark, suppress, mark_location, has, live, snapshot,
}

find-put :
    (t l : String) (e : Entry) (xs : List Entry)
    → find (same_key t l) (put e xs) ≡ (if same_key t l e then some e else find (same_key t l) xs)
unfolding put same_key
find-put t l e [] = refl
find-put t l e (x ∷ xs) = ground (
  arith,
  find-put t l e xs,
  eq_iff e.server_type t,
  eq_iff e.location l,
  eq_iff x.server_type e.server_type,
  eq_iff x.location e.location,
  eq_iff x.server_type t,
  eq_iff x.location l,
)

-- A marked pair is suppressed for exactly the TTL, counted from the marking; marking it changes
-- nothing about any other pair.
pub has-mark :
    (u : Unavailable) (now later : ℕ) (t l t' l' : String) (c : ErrorCode)
    → has (mark u now t l c) later t' l'
      ≡ (if t == t' && l == l' then ltb later (now + u.ttl) else has u later t' l')
unfolding has mark
has-mark u now later t l t' l' c = ground (
  arith,
  find-put t' l' (record { server_type = t; location = l; until = now + u.ttl; code = c }) u.items,
)

-- The list holds no key twice, as a Go map does.
abbrev pub IsDistinct : List Entry → Type 0
IsDistinct [] = Unit
IsDistinct (e ∷ es) = (find (same_key e.server_type e.location) es ≡ none) × IsDistinct es

-- Two entries that have a key in common are found by the same keys.
same_key-same :
    (t l : String) (e : Entry) (xs : List Entry)
    → same_key t l e ≡ true
    → find (same_key t l) xs ≡ find (same_key e.server_type e.location) xs
unfolding same_key
same_key-same t l e xs h =
    let p : e.server_type ≡ t = ground (arith, eq_iff e.server_type t) in
    let q : e.location ≡ l = ground (arith, eq_iff e.location l) in rw (p, q)

find-keep-none :
    (t l : String) (p : Entry → Bool) (xs : List Entry)
    → find (same_key t l) xs ≡ none
    → find (same_key t l) (keep p xs) ≡ none
find-keep-none t l p [] h = refl
find-keep-none t l p (x ∷ xs) h = ground (arith, find-keep-none t l p xs)

-- Filtering a map: a key is found if it was and its value passes the test.
find-keep :
    (t l : String) (p : Entry → Bool) (xs : List Entry)
    → IsDistinct xs
    → find (same_key t l) (keep p xs)
      ≡ elim (find (same_key t l) xs) [ none ↦ none | some e ↦ if p e then some e else none ]
find-keep t l p [] d = refl
find-keep t l p (x ∷ xs) d =
    ground (arith, find-keep t l p xs d.1, find-keep-none t l p xs, same_key-same t l x xs)

-- Reaping the expired entries at `now` changes no answer at `now` or later.
has-snapshot :
    (u : Unavailable) (now later : ℕ) (t l : String)
    → IsDistinct u.items
    → now ≤ later
    → has (snapshot u now).1 later t l ≡ has u later t l
unfolding has snapshot
has-snapshot u now later t l d h = elim (Option-cases (find (same_key t l) u.items)) [
  | inl missing ↦ ground (arith, find-keep t l (live now) u.items d)
  | inr (e, found) ↦ ground (arith, find-keep t l (live now) u.items d)
]

find-map :
    (t l : String) (until : ℕ) (loc : String) (c : ErrorCode) (xs : List Entry)
    → find (same_key t l) (map (suppress until loc c) xs)
      ≡ elim (find (same_key t l) xs) [ none ↦ none | some e ↦ some (suppress until loc c e) ]
unfolding same_key suppress
find-map t l until loc c [] = refl
find-map t l until loc c (x ∷ xs) = ground (arith, find-map t l until loc c xs)

found_key :
    (t l : String) (e : Entry) (xs : List Entry) → find (same_key t l) xs ≡ some e → e.location ≡ l
unfolding same_key
found_key t l e [] h = cc
found_key t l e (x ∷ xs) h = ground (arith, found_key t l e xs, eq_iff x.location l)

-- `MarkLocation` renews every pair of the location that the cache holds, expired or not, and only
-- those: a pair that was never marked stays available.
has-mark_location :
    (u : Unavailable) (now later : ℕ) (loc t l : String) (c : ErrorCode)
    → has (mark_location u now loc c) later t l ≡ elim (find (same_key t l) u.items) [
      | none ↦ false
      | some e ↦ if l == loc then ltb later (now + u.ttl) else ltb later e.until
    ]
unfolding has mark_location
has-mark_location u now later loc t l c = elim (Option-cases (find (same_key t l) u.items)) [
  | inl missing ↦ ground (arith, find-map t l (now + u.ttl) loc c u.items)
  | inr (e, found) ↦ ground (
    arith,
    find-map t l (now + u.ttl) loc c u.items,
    found_key t l e u.items found,
    eq_iff l loc,
    eq_iff e.location loc,
  )
]

put-IsDistinct : (e : Entry) (xs : List Entry) → IsDistinct xs → IsDistinct (put e xs)
unfolding put same_key
put-IsDistinct e [] d = (refl, tt)
put-IsDistinct e (x ∷ xs) d = ground (
  arith,
  put-IsDistinct e xs d.1,
  find-put x.server_type x.location e xs,
  eq_iff x.server_type e.server_type,
  eq_iff x.location e.location,
  eq_iff e.server_type x.server_type,
  eq_iff e.location x.location,
)

keep-IsDistinct : (p : Entry → Bool) (xs : List Entry) → IsDistinct xs → IsDistinct (keep p xs)
keep-IsDistinct p [] d = tt
keep-IsDistinct p (x ∷ xs) d =
    ground (arith, keep-IsDistinct p xs d.1, find-keep-none x.server_type x.location p xs)

map-IsDistinct :
    (until : ℕ) (loc : String) (c : ErrorCode) (xs : List Entry)
    → IsDistinct xs
    → IsDistinct (map (suppress until loc c) xs)
unfolding suppress
map-IsDistinct until loc c [] d = tt
map-IsDistinct until loc c (x ∷ xs) d =
    ground
      (arith, map-IsDistinct until loc c xs d.1, find-map x.server_type x.location until loc c xs)

-- The states that the methods reach from a new cache.
pub data Reachable : Unavailable → Type 0 where
  new : (ttl : ℕ) → Reachable (record { ttl = ttl; items = [] })
  marked :
      {u : Unavailable} (now : ℕ) (t l : String) (c : ErrorCode)
      → Reachable u
      → Reachable (mark u now t l c)
  location_marked :
      {u : Unavailable} (now : ℕ) (l : String) (c : ErrorCode)
      → Reachable u
      → Reachable (mark_location u now l c)
  reaped : {u : Unavailable} (now : ℕ) → Reachable u → Reachable (snapshot u now).1

-- Whatever methods were called, no pair is held twice.
Reachable-IsDistinct : {u : Unavailable} → Reachable u → IsDistinct u.items
unfolding mark mark_location snapshot
Reachable-IsDistinct (new ttl) = tt
Reachable-IsDistinct (marked {u} now t l c r) =
    put-IsDistinct (record { server_type = t; location = l; until = now + u.ttl; code = c }) u.items
      (Reachable-IsDistinct r)
Reachable-IsDistinct (location_marked {u} now l c r) =
    map-IsDistinct (now + u.ttl) l c u.items (Reachable-IsDistinct r)
Reachable-IsDistinct (reaped {u} now r) =
    keep-IsDistinct (live now) u.items (Reachable-IsDistinct r)
