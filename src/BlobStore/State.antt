-- ===== src/BlobStore/State.antt =====
-- src/persistence/blob_store.ts: the tables, the store, its errors, and the monad of its operations.
use nixstr_cache.Prelude.{arith, ℕ, ◌≡◌, refl, sym, subst, ◌⊎◌, inl, inr, Bool, List, Text}

-- `BlobOrigin`.
pub data Origin : Type 0 where
  write remote mixed : Origin

pub data RowState : Type 0 where
  ready deleting : RowState

-- `blob_store_catalog`.
pub record CatalogRow : Type 0 where
  pub hash : Text
  pub size : ℕ
  pub origin : Origin
  pub last_accessed : ℕ
  pub state : RowState

-- `blob_store_owners`.
pub record OwnerRow : Type 0 where
  pub owner : Text
  pub hash : Text

-- `blob_store_reservations`.
pub record Reservation : Type 0 where
  pub token : Text
  pub bytes : ℕ
  pub created_at : ℕ

-- `blob_store_tombstones`.
pub record Tombstone : Type 0 where
  pub hash : Text
  pub retry_at : ℕ
  pub last_error : Text

-- `blob_store_routes`.
pub record RouteRow : Type 0 where
  pub route : Text
  pub size : ℕ
  pub component_count : ℕ

-- `blob_store_route_components`.
pub record ComponentRow : Type 0 where
  pub route : Text
  pub index : ℕ
  pub hash : Text
  pub size : ℕ

pub record Db : Type 0 where
  pub catalog : List CatalogRow
  pub owners : List OwnerRow
  pub reservations : List Reservation
  pub tombstones : List Tombstone
  pub routes : List RouteRow
  pub components : List ComponentRow

-- The database, the leases by hash with their counts, and the blob files by hash with their sizes.
-- A rollback restores the database alone.
pub record Store : Type 0 where
  pub db : Db
  pub capacity : ℕ
  pub leases : List (Text × ℕ)
  pub files : List (Text × ℕ)
  pub closed : Bool

pub data Error : Type 0 where
  invalid_hash invalid_reservation capacity_unavailable constraint_failed : Error
  identity_changed blob_not_found route_conflict ownership_missing : Error
  exceeds_reservation hash_mismatch source_failed disk_error : Error
  store_closed leases_open invalid_limit : Error

-- A call returns or throws, and leaves a store either way.
pub data Outcome (A : Type 0) : Type 0 where
  done : A → Store → Outcome A
  threw : Error → Store → Outcome A

abbrev pub M : Type 0 → Type 0
M A = Store → Outcome A

infixl 5 ◌>>=◌ ◌>>◌
abbrev pub ◌>>=◌ : {A B : Type 0} → M A → (A → M B) → M B
◌>>=◌ m f s = elim (m s) [ done a s' ↦ f a s' | threw e s' ↦ threw e s' ]

abbrev pub ◌>>◌ : {B : Type 0} → M (Unit {0}) → M B → M B
m >> k = m >>= λ _. k

abbrev pub pure : {A : Type 0} → A → M A
pure a s = done a s

abbrev pub throw : {A : Type 0} → Error → M A
throw e s = threw e s

abbrev pub get_state : M Store
get_state s = done s s

abbrev pub modify : (Store → Store) → M (Unit {0})
modify f s = done tt (f s)

-- `BEGIN IMMEDIATE` to `COMMIT`, with `ROLLBACK` where the body throws.
abbrev pub transaction : {A : Type 0} → M A → M A
transaction m s = elim (m s) [
  | done a s' ↦ done a s'
  | threw e s' ↦ threw e (record s' { db = s.db })
]

abbrev pub after : {A : Type 0} → Outcome A → Store
after (done a s) = s
after (threw e s) = s

pub Outcome-cases :
    {A : Type 0} (o : Outcome A)
    → ((a : A) × (s : Store) × (o ≡ done a s)) ⊎ ((e : Error) × (s : Store) × (o ≡ threw e s))
Outcome-cases (done a s) = inl (a, s, refl)
Outcome-cases (threw e s) = inr (e, s, refl)

-- A check: it throws or leaves everything as it is.
abbrev pub IsTest : M (Unit {0}) → Type 0
IsTest m = (s : Store) → (m s ≡ done tt s) ⊎ ((e : Error) × (m s ≡ threw e s))

pub after_test :
    {B : Type 0} (P : Outcome B → Type 0) (m : M (Unit {0})) (k : M B) (s : Store)
    → IsTest m
    → P (k s)
    → ((e : Error) → P (threw e s))
    → P ((m >> k) s)
after_test P m k s t passed refused = elim (t s) [
  | inl e ↦ subst (λ o. P (elim o [ done a s' ↦ k s' | threw x s' ↦ threw x s' ])) (sym e) passed
  | inr (x, e) ↦
      subst (λ o. P (elim o [ done a s' ↦ k s' | threw y s' ↦ threw y s' ])) (sym e) (refused x)
]

pub >>-IsTest : (m k : M (Unit {0})) → IsTest m → IsTest k → IsTest (m >> k)
>>-IsTest m k t u s = ground (arith, t s, u s)
