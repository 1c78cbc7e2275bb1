-- ===== src/Registry/Winner.antt =====
-- src/nix/merged_cache.ts, `WinnerRouteRegistry`.
pub mod Held
pub mod Served
use nixstr_cache.Prelude.{
  ℕ, ◌+◌, ◌≤◌, ◌<◌, ◌≡◌, not, ◌&&◌, Option, none, some, List, [], ◌∷◌, arith, leb, if◌then◌else◌,
  Option-cases, length, keep, Text, text_eq_refl, lookup, remove, insert, lookup-insert,
  length-remove-le, inl, inr,
}
use nixstr_cache.Registry.{Entry, normalized}

pub record Registry (P : Type 0) : Type 0 where
  pub max_entries : ℕ
  pub ttl : ℕ
  pub entries : List (Text × Entry P)

-- The constructor; `none` is the `RangeError`.
unfoldable pub create : {P : Type 0} → ℕ → ℕ → Option (Registry P)
create max_entries ttl =
    if leb 1 max_entries && leb max_entries 9007199254740991
    then (if leb 1 ttl && leb ttl 9007199254740991
        then some (record { max_entries = max_entries; ttl = ttl; entries = [] })
        else none)
    else none

-- `#purge`.
unfoldable pub purge : {P : Type 0} → ℕ → List (Text × Entry P) → List (Text × Entry P)
purge now = keep (λ e. not (leb ((e.1).expires_at) now))

-- The loop of `set` that drops the oldest entries. With `max` entries positive it ends at the
-- latest at the empty table.
unfoldable pub evict : {P : Type 0} → ℕ → List (Text × Entry P) → List (Text × Entry P)
evict max [] = []
evict max (e ∷ es) = let rest = evict max es in if leb max (length (e ∷ es)) then rest else e ∷ es

-- `set`; `none` is the `TypeError`.
unfoldable pub set : {P : Type 0} → ℕ → Text → P → Registry P → Option (Registry P)
unfolding purge evict
set now path publication r = elim (normalized path) [
  | none ↦ none
  | some key ↦ some (record r {
    entries =
        insert key (record { value = publication; expires_at = now + r.ttl })
          (evict r.max_entries (remove key (purge now r.entries)));
  })
]

-- The branch of `get` for a route that is well formed.
unfoldable pub get_key : {P : Type 0} → ℕ → Text → Registry P → Option P × Registry P
get_key {P} now key r =
    let gone : Option P × Registry P = (none, record r { entries = remove key r.entries }) in
    elim (lookup key r.entries) [
      | none ↦ gone
      | some e ↦ if leb e.expires_at now then gone else (some e.value, r)
    ]

-- `get`; an entry that has expired is dropped.
unfoldable pub get : {P : Type 0} → ℕ → Text → Registry P → Option P × Registry P
unfolding get_key
get now path r = elim (normalized path) [ none ↦ (none, r) | some key ↦ get_key now key r ]

unfoldable pub close : {P : Type 0} → Registry P → Registry P
close r = record r { entries = [] }

module _ {P : Type 0} where
  -- After the loop there is room for one more entry.
  evict-lt : (max : ℕ) (es : List (Text × Entry P)) → 0 < max → length (evict max es) < max
  unfolding evict
  evict-lt max [] h = h
  evict-lt max (e ∷ es) h = ground (arith, evict-lt max es h)

  length-insert-le :
      (k : Text) (v : Entry P) (m : List (Text × Entry P)) → length (insert k v m) ≤ length m + 1
  unfolding insert
  length-insert-le k v [] = omega arith
  length-insert-le k v ((j, w) ∷ m) = ground (arith, length-insert-le k v m)

  -- No more entries than the limit, which is positive.
  pub record IsBounded (r : Registry P) : Type 0 where
    pub positive : 0 < r.max_entries
    pub within : length r.entries ≤ r.max_entries

  pub create-IsBounded : (max ttl : ℕ) (r : Registry P) → create max ttl ≡ some r → IsBounded r
  unfolding create
  create-IsBounded max ttl r h = ground arith

  -- A route that is set never makes a registry that is within its limit exceed it.
  pub set-IsBounded :
      (now : ℕ) (path : Text) (p : P) (r r' : Registry P)
      → IsBounded r
      → set now path p r ≡ some r'
      → IsBounded r'
  unfolding set
  set-IsBounded now path p r r' v h = elim (Option-cases (normalized path)) [
    | inl e ↦ ground arith
    | inr (key, e) ↦
        let es = evict r.max_entries (remove key (purge now r.entries)) in
        let entry : Entry P = record { value = p; expires_at = now + r.ttl } in
        ground (
          arith,
          e,
          evict-lt r.max_entries (remove key (purge now r.entries)) v.positive,
          length-insert-le key entry es,
        )
  ]

  pub get-IsBounded :
      (now : ℕ) (path : Text) (r : Registry P) → IsBounded r → IsBounded ((get now path r).1)
  unfolding get
  get-IsBounded now path r v = elim (Option-cases (normalized path)) [
    | inl e ↦ ground (arith, e)
    | inr (key, e) ↦ ground (arith, e, length-remove-le key r.entries)
  ]
