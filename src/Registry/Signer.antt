-- ===== src/Registry/Signer.antt =====
-- src/nix/merged_cache.ts, `SignerRouteRegistry`: leases of overlay snapshots, each held until it is
-- taken, replaced, evicted or expired. A lease is known by its number.
pub mod Leases
use nixstr_cache.Prelude.{
  ℕ, ◌+◌, ◌≡◌, Bool, true, false, Option, none, some, List, [], ◌∷◌, ◌++◌, map, min, max, leb,
  if◌then◌else◌, length, keep, Text, text_eq,
}
use nixstr_cache.Registry.{Entry, normalized}

-- `timer` is the time at which the timer goes off; `released` lists the leases that were released.
pub record Registry : Type 0 where
  pub max_entries : ℕ
  pub ttl : ℕ
  pub entries : List (Text × Entry ℕ)
  pub released : List ℕ
  pub timer : Option ℕ
  pub closed : Bool

-- The entry of a key, of which a map has one at most.
unfoldable pub find_lease : Text → List (Text × Entry ℕ) → Option (Entry ℕ)
find_lease key [] = none
find_lease key ((k, e) ∷ es) = if text_eq k key then some e else find_lease key es

unfoldable pub drop_lease : Text → List (Text × Entry ℕ) → List (Text × Entry ℕ)
drop_lease key [] = []
drop_lease key ((k, e) ∷ es) = if text_eq k key then es else (k, e) ∷ drop_lease key es

-- `#delete`.
unfoldable pub delete : Text → Registry → Registry
unfolding find_lease drop_lease
delete key r = elim (find_lease key r.entries) [
  | none ↦ r
  | some e ↦ record r { entries = drop_lease key r.entries; released = e.value ∷ r.released }
]

unfoldable pub delete_all : List Text → Registry → Registry
unfolding delete
delete_all [] r = r
delete_all (k ∷ ks) r = delete_all ks (delete k r)

abbrev pub keys : List (Text × Entry ℕ) → List Text
keys = map λ (e : Text × Entry ℕ). e.0

-- `#purge`.
unfoldable pub purge : ℕ → Registry → Registry
unfolding delete_all
purge now r = delete_all (keys (keep (λ e. leb ((e.1).expires_at) now) r.entries)) r

-- The loop of `set` that drops the oldest entries, over the entries from the oldest on. With
-- `max_entries` positive it ends at the latest at the empty table.
unfoldable pub evict : List (Text × Entry ℕ) → Registry → Registry
unfolding delete
evict [] r = r
evict ((k, e) ∷ es) r =
    let rest = evict es (delete k r) in if leb r.max_entries (length r.entries) then rest else r

unfoldable pub earliest : List (Text × Entry ℕ) → Option ℕ
earliest [] = none
earliest ((k, e) ∷ es) = elim (earliest es) [
  | none ↦ some e.expires_at
  | some t ↦ some (min e.expires_at t)
]

-- `#arm`: the timer's delay is `max(0, earliest - now)`.
unfoldable pub arm : ℕ → Registry → Registry
unfolding earliest
arm now r = if r.closed then record r { timer = none } else elim (earliest r.entries) [
  | none ↦ record r { timer = none }
  | some t ↦ record r { timer = some (max now t) }
]

pub data Outcome : Type 0 where
  registered : Registry → Outcome
  registry_closed invalid_route : Outcome

-- `set`, past its checks. The key was deleted, so its entry is the newest.
unfoldable pub set_key : ℕ → Text → ℕ → Registry → Registry
unfolding purge evict arm
set_key now key lease r =
    let cleared = delete key (purge now r) in
    let roomy = evict cleared.entries cleared in
    arm now (record roomy {
      entries = roomy.entries ++ (key, record { value = lease; expires_at = now + roomy.ttl }) ∷ [];
    })

unfoldable pub set : ℕ → Text → ℕ → Registry → Outcome
unfolding set_key
set now path lease r = if r.closed then registry_closed else elim (normalized path) [
  | none ↦ invalid_route
  | some key ↦ registered (set_key now key lease r)
]

-- `take`, for a route that is well formed.
unfoldable pub take_key : ℕ → Text → Registry → Option ℕ × Registry
unfolding arm
take_key now key r = elim (find_lease key r.entries) [
  | none ↦ (none, arm now r)
  | some e ↦
      if leb e.expires_at now
      then (none, arm now (delete key r))
      else (some e.value, arm now (record r { entries = drop_lease key r.entries }))
]

unfoldable pub take : ℕ → Text → Registry → Option ℕ × Registry
unfolding take_key
take now path r =
    if r.closed
    then (none, r)
    else elim (normalized path) [ none ↦ (none, r) | some key ↦ take_key now key r ]

-- The timer's callback.
unfoldable pub fire : ℕ → Registry → Registry
unfolding purge arm
fire now r = arm now (purge now (record r { timer = none }))

unfoldable pub close : Registry → Registry
unfolding delete_all
close r =
    if r.closed then r else delete_all (keys r.entries) (record r { closed = true; timer = none })
