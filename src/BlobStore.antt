-- ===== src/BlobStore.antt =====
-- src/persistence/blob_store.ts: the content-addressed store with its SQLite tables, its leases and
-- its files. The state and the monad stand in `BlobStore.State`.
pub mod State
pub mod Rows
pub mod Usage
pub mod Ops
pub mod Owners
pub mod Capacity
pub mod Quiet
pub mod Eviction
pub mod Admission
pub mod System
use nixstr_cache.Prelude.{
  ℕ, ◌+◌, ◌-◌, ◌≡◌, refl, inl, inr, arith, Bool, true, false, not, ◌&&◌, Option, none, some, List,
  [], ◌∷◌, ◌++◌, map, ltb, leb, ◌==◌, if◌then◌else◌, is_some, length, take, keep, any, all, find,
  sum_of, Text, txt, text_eq, text_lt, lookup, remove, insert,
}
use State.{
  Origin, write, remote, mixed, RowState, ready, deleting, CatalogRow, OwnerRow, Reservation,
  Tombstone, RouteRow, ComponentRow, Db, Store, Error, invalid_hash, invalid_reservation,
  capacity_unavailable, constraint_failed, identity_changed, blob_not_found, route_conflict,
  ownership_missing, exceeds_reservation, hash_mismatch, source_failed, disk_error, store_closed,
  leases_open, invalid_limit, Outcome, done, threw, M, ◌>>=◌, ◌>>◌, pure, throw, get_state, modify,
  transaction, IsTest,
}
use Rows.{
  is_hash, same_origin, row_of, is_ready, owned, drop_owned, mark_deleting, upsert, eviction_order,
  insert_owner, size_ready, evictable, sort_rows, hash_order,
}

-- What the file system answers: the error text of a removal or of a link that it refuses.
pub record Disk : Type 0 where
  pub refuses_remove : Text → Option Text
  pub refuses_link : Text → Option Text

-- `Number.MAX_SAFE_INTEGER`.
abbrev pub max_safe : ℕ
max_safe = 9007199254740991

abbrev pub inventory_limit : ℕ
inventory_limit = 10000

unfoldable pub ready_bytes : Db → ℕ
ready_bytes db = sum_of size_ready db.catalog

unfoldable pub reserved_bytes : Db → ℕ
reserved_bytes db = sum_of (λ (r : Reservation). r.bytes) db.reservations

-- `usage.readyBytes + usage.reservedBytes`.
unfoldable pub used : Store → ℕ
used s = ready_bytes s.db + reserved_bytes s.db

unfoldable pub fits : Store → ℕ → Bool
fits s required = leb (used s + required) s.capacity

-- `has`, less the check of the hash.
unfoldable pub has_ready : Db → Text → Bool
has_ready db hash = any (λ r. text_eq r.hash hash && is_ready r) db.catalog

unfoldable pub guard : Bool → Error → M (Unit {0})
guard true e = pure tt
guard false e = throw e

unfoldable pub assert_open : M (Unit {0})
assert_open s = if s.closed then threw store_closed s else done tt s

unfoldable pub validate_hash : Text → M (Unit {0})
unfolding guard
validate_hash hash = guard (is_hash hash) invalid_hash

pub guard-IsTest : (b : Bool) (e : Error) → IsTest (guard b e)
unfolding guard
guard-IsTest true e s = inl refl
guard-IsTest false e s = inr (e, refl)

pub assert_open-IsTest : IsTest assert_open
unfolding assert_open
assert_open-IsTest s = ground arith

pub validate_hash-IsTest : (hash : Text) → IsTest (validate_hash hash)
unfolding validate_hash
validate_hash-IsTest hash = guard-IsTest (is_hash hash) invalid_hash

unfoldable pub has : Text → M Bool
unfolding validate_hash
has hash = do validate_hash hash; s ← get_state; pure (has_ready s.db hash)

-- `DELETE FROM blob_store_catalog WHERE hash=?`, with the foreign keys on: the owners go with the
-- row, and a row that a route component cites stays (`none`).
unfoldable pub delete_row : Db → Text → Option Db
delete_row db hash =
    if any (λ r. text_eq r.hash hash) db.catalog
    then if any (λ (c : ComponentRow). text_eq c.hash hash) db.components
      then none
      else some (record db {
        catalog = keep (λ r. not (text_eq r.hash hash)) db.catalog;
        owners = keep (λ (o : OwnerRow). not (text_eq o.hash hash)) db.owners;
      })
    else some db

unfoldable pub bury : Text → Text → ℕ → Db → Db
bury hash error now db = record db {
  tombstones =
      record { hash = hash; retry_at = now; last_error = error }
      ∷ keep (λ (t : Tombstone). not (text_eq t.hash hash)) db.tombstones;
}

unfoldable pub exhume : Text → Db → Db
exhume hash db = record db {
  tombstones = keep (λ (t : Tombstone). not (text_eq t.hash hash)) db.tombstones;
}

-- The answer of `this.#remove(this.pathFor(hash))`.
pub data Removal : Type 0 where
  removed not_found : Removal
  failed : Text → Removal

unfoldable pub removal : Disk → Store → Text → Removal
removal d s hash = elim (d.refuses_remove hash) [
  | some error ↦ failed error
  | none ↦ if is_some (lookup hash s.files) then removed else not_found
]

-- `#delete`, past the update to `deleting`.
unfoldable pub finish_delete : Removal → Text → ℕ → M (Unit {0})
finish_delete removed hash now s =
    let gone = record s { files = remove hash s.files } in
    elim (delete_row s.db hash) [
      | none ↦
          done tt (record gone { db = bury hash (txt "FOREIGN KEY constraint failed") now s.db })
      | some db ↦ done tt (record gone { db = exhume hash db })
    ]
finish_delete not_found hash now s = elim (delete_row s.db hash) [
  | none ↦ threw constraint_failed s
  | some db ↦ done tt (record s { db = db })
]
finish_delete (failed error) hash now s = done tt (record s { db = bury hash error now s.db })

unfoldable pub delete : Disk → ℕ → Text → M (Unit {0})
unfolding delete_row bury exhume removal finish_delete
delete d now hash s =
    let marked = record s { db = record (s.db) { catalog = mark_deleting hash s.db.catalog } } in
    finish_delete (removal d s hash) hash now marked

-- The loop of `#makeSpace`.
unfoldable pub make_space_loop : Disk → ℕ → ℕ → List CatalogRow → M (Unit {0})
make_space_loop d now required [] s = done tt s
make_space_loop d now required (c ∷ cs) s =
    if is_some (lookup c.hash s.leases)
    then make_space_loop d now required cs s
    else elim (delete d now c.hash s) [
      | threw e s' ↦ threw e s'
      | done _ s' ↦ elim (fits s' required) [
        | true ↦ done tt s'
        | false ↦ make_space_loop d now required cs s'
      ]
    ]

-- The rows that `#makeSpace` selects, least recently used first.
unfoldable pub candidates : Db → List CatalogRow
candidates db = sort_rows eviction_order (keep (evictable db) db.catalog)

unfoldable pub make_space : Disk → ℕ → ℕ → M (Unit {0})
unfolding make_space_loop candidates
make_space d now required s =
    if fits s required then done tt s else make_space_loop d now required (candidates s.db) s

unfoldable pub reserve_row : Text → ℕ → ℕ → M Reservation
reserve_row token bytes now s =
    let r : Reservation = record { token = token; bytes = bytes; created_at = now } in
    if not (fits s bytes)
    then threw capacity_unavailable s
    else if any (λ (r : Reservation). text_eq r.token token) s.db.reservations
    then threw constraint_failed s
    else done r (record s { db = record (s.db) { reservations = r ∷ s.db.reservations } })

-- The transaction of `reserve`.
unfoldable pub reserve_tables : Disk → ℕ → Text → ℕ → M Reservation
reserve_tables d now token bytes =
    transaction (make_space d now bytes >> reserve_row token bytes now)

abbrev pub reservable : ℕ → Store → Bool
reservable bytes s = leb bytes max_safe && leb bytes s.capacity

-- `reserve`, with the token that `crypto.randomUUID` made.
unfoldable pub reserve : Disk → ℕ → Text → ℕ → M Reservation
reserve d now token bytes s =
    (assert_open
        >> guard (reservable bytes s) invalid_reservation
        >> reserve_tables d now token bytes)
      s

unfoldable pub release_reservation : Text → Store → Store
release_reservation token s = if s.closed then s else record s {
  db = record (s.db) {
    reservations = keep (λ (r : Reservation). not (text_eq r.token token)) s.db.reservations;
  };
}
