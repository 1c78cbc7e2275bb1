-- ===== src/BlobStore/Capacity.antt =====
-- src/persistence/blob_store.ts: the capacity bound.
use nixstr_cache.Prelude.{
  ℕ, ◌≤◌, ◌≡◌, refl, inl, inr, some, List, [], ◌∷◌, arith, Option-cases, Text,
}
use nixstr_cache.BlobStore.State.{
  after_test, >>-IsTest, invalid_reservation, CatalogRow, Reservation, Db, Store, Outcome, done,
  threw, M, after, transaction, ◌>>◌,
}
use nixstr_cache.BlobStore.Rows.{mark_deleting}
use nixstr_cache.BlobStore.Usage.{HoldsToken, mark_deleting-le, drop_row-le}
use nixstr_cache.BlobStore.{
  assert_open, guard, assert_open-IsTest, guard-IsTest, Disk, used, ready_bytes, reserved_bytes,
  fits, delete_row, finish_delete, delete, make_space_loop, make_space, reserve_tables, reservable,
  candidates, bury, exhume, reserve_row, reserve, Removal, removed, not_found, failed, removal,
}

-- `s'` uses no more than `s`, at the same capacity and with the same reservations.
pub record Shrinks (s s' : Store) : Type 0 where
  pub less : used s' ≤ used s
  pub same : s'.capacity ≡ s.capacity
  pub kept : s'.db.reservations ≡ s.db.reservations

pub Shrinks-trans : (s t u : Store) → Shrinks s t → Shrinks t u → Shrinks s u
Shrinks-trans s t u h k = ground arith

delete_row-le :
    (db db' : Db) (hash : Text)
    → delete_row db hash ≡ some db'
    → (ready_bytes db' ≤ ready_bytes db)
      × (reserved_bytes db' ≡ reserved_bytes db)
      × (db'.reservations ≡ db.reservations)
unfolding delete_row ready_bytes reserved_bytes
delete_row-le db db' hash e = ground (arith, drop_row-le hash db.catalog)

finish_delete-Shrinks :
    (r : Removal) (hash : Text) (now : ℕ) (s : Store)
    → Shrinks s (after (finish_delete r hash now s))
unfolding finish_delete used bury exhume ready_bytes reserved_bytes
finish_delete-Shrinks removed hash now s = elim (Option-cases (delete_row s.db hash)) [
  | inl e ↦ rw (e, finish_delete, after) (ground arith)
  | inr (db, e) ↦ rw (e, finish_delete, after) (ground (arith, delete_row-le s.db db hash e))
]
finish_delete-Shrinks not_found hash now s = elim (Option-cases (delete_row s.db hash)) [
  | inl e ↦ rw (e, finish_delete, after) (ground arith)
  | inr (db, e) ↦ rw (e, finish_delete, after) (ground (arith, delete_row-le s.db db hash e))
]
finish_delete-Shrinks (failed error) hash now s = ground arith

pub delete-Shrinks :
    (d : Disk) (now : ℕ) (hash : Text) (s : Store) → Shrinks s (after (delete d now hash s))
unfolding delete used ready_bytes reserved_bytes
delete-Shrinks d now hash s =
    let marked : Store = record s {
      db = record (s.db) { catalog = mark_deleting hash s.db.catalog };
    } in
    ground (
      arith,
      mark_deleting-le hash s.db.catalog,
      finish_delete-Shrinks (removal d s hash) hash now marked,
    )

make_space_loop-Shrinks :
    (d : Disk) (now required : ℕ) (cs : List CatalogRow) (s : Store)
    → Shrinks s (after (make_space_loop d now required cs s))
unfolding make_space_loop
make_space_loop-Shrinks d now required [] s = ground arith
make_space_loop-Shrinks d now required (c ∷ cs) s = ground (
  arith,
  delete-Shrinks d now c.hash s,
  make_space_loop-Shrinks d now required cs s,
  make_space_loop-Shrinks d now required cs (after (delete d now c.hash s)),
)

pub make_space-Shrinks :
    (d : Disk) (now required : ℕ) (s : Store) → Shrinks s (after (make_space d now required s))
unfolding make_space
make_space-Shrinks d now required s =
    ground (arith, make_space_loop-Shrinks d now required (candidates s.db) s)

-- The bound on the bytes that are stored or promised.
abbrev pub Fits : Store → Type 0
Fits s = used s ≤ s.capacity

pub Shrinks-Fits : (s s' : Store) → Shrinks s s' → Fits s → Fits s'
Shrinks-Fits s s' h f = omega arith

-- A composition of steps that shrink the use shrinks it.
pub >>-Shrinks :
    {B : Type 0} (m : M (Unit {0})) (k : M B)
    → ((s : Store) → Shrinks s (after (m s)))
    → ((s : Store) → Shrinks s (after (k s)))
    → (s : Store) → Shrinks s (after ((m >> k) s))
>>-Shrinks m k h g s = ground (arith, h s, g (after (m s)))

-- So does a transaction, whose rollback restores the tables.
pub transaction-Shrinks :
    {A : Type 0} (m : M A)
    → ((s : Store) → Shrinks s (after (m s)))
    → (s : Store) → Shrinks s (after (transaction m s))
unfolding used
transaction-Shrinks m h s = ground (arith, h s)

abbrev pub Holds : Text → ℕ → Store → Type 0
Holds token bytes s = HoldsToken token bytes s.db.reservations

-- What a call of `reserve` may do: on success the bytes are promised under the token, and on an
-- error the tables are as they were.
abbrev pub Reserved : Text → ℕ → Store → Outcome Reservation → Type 0
Reserved token bytes s (done r s') =
    (r.token ≡ token)
    × (r.bytes ≡ bytes)
    × Fits s'
    × (s'.capacity ≡ s.capacity)
    × (s'.db.reservations ≡ r ∷ s.db.reservations)
Reserved token bytes s (threw e s') = (s'.db ≡ s.db) × (s'.capacity ≡ s.capacity)

reserve_row-Reserved :
    (token : Text) (bytes now : ℕ) (s t : Store)
    → Shrinks s t
    → Reserved token bytes s (elim (reserve_row token bytes now t) [
      | done a s' ↦ done a s'
      | threw e s' ↦ threw e (record s' { db = s.db })
    ])
unfolding reserve_row fits used ready_bytes reserved_bytes
reserve_row-Reserved token bytes now s t h = ground (arith, h)

reserve_tables-Reserved :
    (d : Disk) (now : ℕ) (token : Text) (bytes : ℕ) (s : Store)
    → Reserved token bytes s (reserve_tables d now token bytes s)
unfolding reserve_tables
reserve_tables-Reserved d now token bytes s = ground (
  arith,
  make_space-Shrinks d now bytes s,
  reserve_row-Reserved token bytes now s (after (make_space d now bytes s)),
)

-- A reservation that is granted leaves the store within its capacity, with the bytes promised
-- under the token; one that is refused leaves the tables as they were.
pub reserve-Reserved :
    (d : Disk) (now : ℕ) (token : Text) (bytes : ℕ) (s : Store)
    → Reserved token bytes s (reserve d now token bytes s)
unfolding reserve
reserve-Reserved d now token bytes s =
    let sized = guard (reservable bytes s) invalid_reservation in
    after_test (Reserved token bytes s) (assert_open >> sized) (reserve_tables d now token bytes) s
      (>>-IsTest assert_open sized assert_open-IsTest (guard-IsTest _ _))
      (reserve_tables-Reserved d now token bytes s) (λ e. (refl, refl))
