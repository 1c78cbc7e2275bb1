-- ===== src/BlobStore/Ops.antt =====
-- src/persistence/blob_store.ts: admission and promotion, leases, owners, the inventory and routes.
use nixstr_cache.Prelude.{
  ℕ, ◌+◌, ◌-◌, Bool, true, false, not, ◌&&◌, ◌||◌, Option, none, some, List, [], ◌∷◌, ◌++◌, map,
  ltb, ◌==◌, if◌then◌else◌, is_some, length, take, keep, find, Text, text_eq, lookup, remove,
  insert,
}
use nixstr_cache.BlobStore.State.{
  Origin, mixed, ready, CatalogRow, OwnerRow, Reservation, Db, Store, identity_changed,
  exceeds_reservation, hash_mismatch, source_failed, disk_error, Outcome, done, threw, M, ◌>>=◌,
  ◌>>◌, pure, throw, get_state, transaction,
}
use nixstr_cache.BlobStore.Rows.{
  is_write, same_origin, is_ready, row_of, owned, insert_owner, touch, upsert, sort_rows,
  hash_order,
}
use nixstr_cache.BlobStore.{
  Disk, inventory_limit, guard, validate_hash, delete, reserve, release_reservation,
}

-- `BlobInventoryEntry`.
pub record InventoryEntry : Type 0 where
  pub hash : Text
  pub size : ℕ
  pub origin : Origin
  pub last_accessed : ℕ
  pub owners : ℕ

unfoldable pub entry_of : Db → CatalogRow → InventoryEntry
entry_of db r = record {
  hash = r.hash;
  size = r.size;
  origin = r.origin;
  last_accessed = r.last_accessed;
  owners = length (keep (λ (o : OwnerRow). text_eq o.hash r.hash) db.owners);
}

-- The rows that `inventory(limit)` returns, for a limit that it accepts.
unfoldable pub inventory : ℕ → Db → List InventoryEntry
unfolding entry_of
inventory limit db =
    map (entry_of db) (take limit (sort_rows hash_order (keep is_ready db.catalog)))

-- `#entry`, over the default limit of `inventory`.
unfoldable pub entry : Text → Db → Option InventoryEntry
entry hash db = find (λ e. text_eq e.hash hash) (inventory inventory_limit db)

-- `if (owner)`: the empty text counts as none.
abbrev pub truthy : Option Text → Option Text
truthy none = none
truthy (some []) = none
truthy (some (c ∷ cs)) = some (c ∷ cs)

unfoldable pub merged_origin : Option CatalogRow → Origin → Origin
merged_origin none origin = origin
merged_origin (some r) origin = if same_origin r.origin origin then origin else mixed

unfoldable pub size_conflict : Option CatalogRow → ℕ → Bool
size_conflict none size = false
size_conflict (some r) size = not (r.size == size)

unfoldable pub add_owner : Option Text → Text → List OwnerRow → List OwnerRow
add_owner none hash os = os
add_owner (some owner) hash os = insert_owner owner hash os

-- The transaction of `#promote`.
unfoldable pub promote_row : Text → ℕ → Origin → Option Text → Text → ℕ → M (Unit {0})
unfolding merged_origin size_conflict add_owner
promote_row hash size origin owner token now s =
    let existing = row_of hash s.db.catalog in
    if size_conflict existing size
    then threw identity_changed s
    else done tt (record s {
      db = record (s.db) {
        catalog =
            upsert
              (record {
                hash = hash;
                size = size;
                origin = merged_origin existing origin;
                last_accessed = now;
                state = ready;
              })
              s.db.catalog;
        owners = add_owner (truthy owner) hash s.db.owners;
        reservations = keep (λ (r : Reservation). not (text_eq r.token token)) s.db.reservations;
      };
    })

-- `Deno.linkSync`: a file that is there already stays as it is.
unfoldable pub link : Disk → Text → ℕ → M (Unit {0})
link d hash size s = elim (d.refuses_link hash) [
  | some e ↦ threw disk_error s
  | none ↦
      if is_some (lookup hash s.files)
      then done tt s
      else done tt (record s { files = insert hash size s.files })
]

unfoldable pub read_entry : Text → M (Option InventoryEntry)
read_entry hash s = done (entry hash s.db) s

-- `#promote`. The result is what `#entry` finds, which the source asserts to be there.
unfoldable pub promote :
    Disk → ℕ → Text → ℕ → Origin → Option Text → Text → M (Option InventoryEntry)
unfolding link read_entry
promote d now hash size origin owner token = do
  link d hash size
  transaction (promote_row hash size origin owner token now)
  read_entry hash

-- The stream that `admit` reads: its chunks, and whether it fails after them.
pub record Source : Type 0 where
  pub chunks : List (List ℕ)
  pub broken : Bool

unfoldable pub content : List (List ℕ) → List ℕ
content [] = []
content (c ∷ cs) = c ++ content cs

-- The reading loop of `admit`, from the bytes counted so far.
unfoldable pub read_chunks : ℕ → ℕ → List (List ℕ) → Bool → M ℕ
read_chunks limit size [] broken = if broken then throw source_failed else pure size
read_chunks limit size (c ∷ cs) broken =
    let rest = read_chunks limit (size + length c) cs broken in
    if ltb limit (size + length c) then throw exceeds_reservation else rest

-- `finally`.
abbrev pub finally : {A : Type 0} → M A → (Store → Store) → M A
finally m f s = elim (m s) [ done a s' ↦ done a (f s') | threw e s' ↦ threw e (f s') ]

abbrev pub expected_ok : Option Text → Text → Bool
expected_ok none hash = true
expected_ok (some e) hash = text_eq e hash

module _ (d : Disk) (sha256 : List ℕ → Text) (now : ℕ) where
  -- `admit`, past the reservation.
  unfoldable pub fill :
      Source → Origin → Option Text → Option Text → Reservation → M (Option InventoryEntry)
  unfolding guard
  fill source origin owner expected r = do
    size ← read_chunks r.bytes 0 source.chunks source.broken
    let hash = sha256 (content source.chunks)
    guard (expected_ok (truthy expected) hash) hash_mismatch
    promote d now hash size origin owner r.token

  unfoldable pub admit :
      Text → Source → Origin → Option Text → Option Text → ℕ → M (Option InventoryEntry)
  unfolding fill
  admit token source origin owner expected bytes = do
    r ← reserve d now token bytes
    finally (fill source origin owner expected r) (release_reservation r.token)

  unfoldable pub check_file : Text → ℕ → List (List ℕ) → ℕ → M (Unit {0})
  unfolding guard
  check_file hash size chunks actual =
      guard (actual == size && text_eq (sha256 (content chunks)) hash) identity_changed

  -- `admitVerifiedFile`, past the reservation; `chunks` is what the file reads as.
  unfoldable pub import_file :
      List (List ℕ) → Text → ℕ → Origin → Option Text → Text → M (Option InventoryEntry)
  unfolding check_file
  import_file chunks hash size origin owner token = do
    actual ← read_chunks size 0 chunks false
    check_file hash size chunks actual
    promote d now hash size origin owner token

  unfoldable pub admit_verified_file :
      Text → List (List ℕ) → Text → ℕ → Origin → Option Text → M (Option InventoryEntry)
  unfolding validate_hash import_file
  admit_verified_file token chunks hash size origin owner = do
    validate_hash hash
    r ← reserve d now token size
    finally (import_file chunks hash size origin owner r.token) (release_reservation r.token)

-- `BlobLease`.
pub record Lease : Type 0 where
  pub hash : Text
  pub size : ℕ

abbrev count_or : ℕ → Option ℕ → ℕ
count_or d none = d
count_or d (some n) = n

unfoldable pub take_lease : ℕ → Text → CatalogRow → Store → Outcome (Option Lease)
take_lease now hash row s = done (some (record { hash = hash; size = row.size })) (record s {
  leases = insert hash (count_or 0 (lookup hash s.leases) + 1) s.leases;
  db = record (s.db) { catalog = touch hash now s.db.catalog };
})

-- `lookup`.
unfoldable pub lookup_blob : ℕ → Text → M (Option Lease)
unfolding validate_hash take_lease
lookup_blob now hash = do
  validate_hash hash
  s ← get_state
  (elim (find (λ r. text_eq r.hash hash && is_ready r) s.db.catalog) [
    | none ↦ pure none
    | some row ↦ if is_some (lookup hash s.files) then take_lease now hash row else pure none
  ])

-- `#deleteIfUnownedWrite`.
unfoldable pub delete_if_unowned_write : Disk → ℕ → Text → M (Unit {0})
delete_if_unowned_write d now hash s =
    if is_some (lookup hash s.leases) || owned s.db hash
    then done tt s
    else elim (row_of hash s.db.catalog) [
      | none ↦ done tt s
      | some r ↦ if is_write r.origin then delete d now hash s else done tt s
    ]

unfoldable pub drop_lease : Text → Store → Store
drop_lease hash s =
    let count = count_or 1 (lookup hash s.leases) - 1 in
    record s { leases = if ltb 0 count then insert hash count s.leases else remove hash s.leases }

unfoldable pub release_lease : Disk → ℕ → Text → M (Unit {0})
unfolding drop_lease
release_lease d now hash s = delete_if_unowned_write d now hash (drop_lease hash s)
