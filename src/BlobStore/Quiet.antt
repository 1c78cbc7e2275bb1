-- ===== src/BlobStore/Quiet.antt =====
-- src/persistence/blob_store.ts: the calls that neither reserve nor store bytes.
use nixstr_cache.Prelude.{ℕ, length, none, some, List, [], ◌∷◌, arith, Text, Option}
use nixstr_cache.BlobStore.State.{after_test, ComponentRow, Store, after, transaction}
use nixstr_cache.BlobStore.Rows.{drop_owner, drop_owned}
use nixstr_cache.BlobStore.Usage.{touch-eq}
use nixstr_cache.BlobStore.{
  Disk, used, ready_bytes, reserved_bytes, guard, assert_open, assert_open-IsTest, validate_hash,
}
use nixstr_cache.BlobStore.Ops.{
  lookup_blob, take_lease, drop_lease, delete_if_unowned_write, release_lease,
}
use nixstr_cache.BlobStore.Owners.{
  set_owners, hashes_of, acquire_owner, sweep, sweep_writes, transfer_one, transfer_each,
  transfer_all, transfer_owner, release_one, release_all, release_owner, commit_component,
  commit_components, commit_row, commit_route, commit_body, commit_all,
}
use nixstr_cache.BlobStore.Capacity.{Shrinks, delete-Shrinks, >>-Shrinks, transaction-Shrinks}

module _ (d : Disk) (now : ℕ) where
  delete_if_unowned_write-Shrinks :
      (hash : Text) (s : Store) → Shrinks s (after (delete_if_unowned_write d now hash s))
  unfolding delete_if_unowned_write
  delete_if_unowned_write-Shrinks hash s = ground (arith, delete-Shrinks d now hash s)

  pub release_lease-Shrinks :
      (hash : Text) (s : Store) → Shrinks s (after (release_lease d now hash s))
  unfolding release_lease used
  release_lease-Shrinks hash s =
      ground (arith, delete_if_unowned_write-Shrinks hash (drop_lease hash s))

  pub lookup_blob-Shrinks : (hash : Text) (s : Store) → Shrinks s (after (lookup_blob now hash s))
  unfolding lookup_blob validate_hash guard take_lease used ready_bytes reserved_bytes
  lookup_blob-Shrinks hash s = ground (arith, touch-eq hash now s.db.catalog)

  pub acquire_owner-Shrinks :
      (owner hash : Text) (s : Store) → Shrinks s (after (acquire_owner owner hash s))
  unfolding acquire_owner validate_hash guard set_owners used ready_bytes reserved_bytes
  acquire_owner-Shrinks owner hash s = ground arith

  sweep-Shrinks : (hs : List Text) (s : Store) → Shrinks s (after (sweep d now hs s))
  unfolding sweep
  sweep-Shrinks [] s = ground arith
  sweep-Shrinks (h ∷ hs) s =
      >>-Shrinks (delete_if_unowned_write d now h) (sweep d now hs)
        (delete_if_unowned_write-Shrinks h) (sweep-Shrinks hs) s

  transfer_one-Shrinks :
      (from to hash : Text) (s : Store) → Shrinks s (after (transfer_one from to hash s))
  unfolding transfer_one validate_hash guard set_owners used ready_bytes reserved_bytes
  transfer_one-Shrinks from to hash s = ground arith

  transfer_each-Shrinks :
      (from to : Text) (hs : List Text) (s : Store) → Shrinks s (after (transfer_each from to hs s))
  unfolding transfer_each
  transfer_each-Shrinks from to [] s = ground arith
  transfer_each-Shrinks from to (h ∷ hs) s =
      >>-Shrinks (transfer_one from to h) (transfer_each from to hs)
        (transfer_one-Shrinks from to h) (transfer_each-Shrinks from to hs) s

  transfer_all-Shrinks : (from to : Text) (s : Store) → Shrinks s (after (transfer_all from to s))
  unfolding transfer_all set_owners used ready_bytes reserved_bytes
  transfer_all-Shrinks from to s = ground arith

  sweep_writes-Shrinks : (s : Store) → Shrinks s (after (sweep_writes d now s))
  unfolding sweep_writes
  sweep_writes-Shrinks s = sweep-Shrinks _ s

  pub transfer_owner-Shrinks :
      (from to : Text) (hs : Option (List Text)) (s : Store)
      → Shrinks s (after (transfer_owner d now from to hs s))
  unfolding transfer_owner
  transfer_owner-Shrinks from to none =
      >>-Shrinks (transaction (transfer_all from to)) (sweep_writes d now)
        (transaction-Shrinks (transfer_all from to) (transfer_all-Shrinks from to))
        sweep_writes-Shrinks
  transfer_owner-Shrinks from to (some hs) =
      >>-Shrinks (transaction (transfer_each from to hs)) (sweep_writes d now)
        (transaction-Shrinks (transfer_each from to hs) (transfer_each-Shrinks from to hs))
        sweep_writes-Shrinks

  release_one-Shrinks :
      (owner hash : Text) (s : Store) → Shrinks s (after (release_one d now owner hash s))
  unfolding release_one validate_hash guard set_owners used ready_bytes reserved_bytes
  release_one-Shrinks owner hash s = ground (
    arith,
    delete_if_unowned_write-Shrinks hash (set_owners (drop_owned owner hash s.db.owners) s),
  )

  release_all-Shrinks : (owner : Text) (s : Store) → Shrinks s (after (release_all d now owner s))
  unfolding release_all set_owners used ready_bytes reserved_bytes
  release_all-Shrinks owner s = ground (
    arith,
    sweep-Shrinks (hashes_of owner s.db.owners) (set_owners (drop_owner owner s.db.owners) s),
  )

  pub release_owner-Shrinks :
      (owner : Text) (hash : Option Text) (s : Store)
      → Shrinks s (after (release_owner d now owner hash s))
  unfolding release_owner
  release_owner-Shrinks owner none s = release_all-Shrinks owner s
  release_owner-Shrinks owner (some []) s = release_all-Shrinks owner s
  release_owner-Shrinks owner (some (c ∷ cs)) s = release_one-Shrinks owner (c ∷ cs) s

  commit_component-Shrinks :
      (route upload : Text) (c : ComponentRow) (s : Store)
      → Shrinks s (after (commit_component route upload c s))
  unfolding commit_component validate_hash guard used ready_bytes reserved_bytes
  commit_component-Shrinks route upload c s = ground arith

  commit_components-Shrinks :
      (route upload : Text) (cs : List ComponentRow) (s : Store)
      → Shrinks s (after (commit_components route upload cs s))
  unfolding commit_components
  commit_components-Shrinks route upload [] s = ground arith
  commit_components-Shrinks route upload (c ∷ cs) s =
      >>-Shrinks (commit_component route upload c) (commit_components route upload cs)
        (commit_component-Shrinks route upload c) (commit_components-Shrinks route upload cs) s

  commit_row-Shrinks :
      (route : Text) (size count : ℕ) (upload : Text) (s : Store)
      → Shrinks s (after (commit_row route size count upload s))
  unfolding commit_row used ready_bytes reserved_bytes
  commit_row-Shrinks route size count upload s = ground arith

  commit_body-Shrinks :
      (route : Text) (size : ℕ) (cs : List ComponentRow) (upload : Text) (s : Store)
      → Shrinks s (after (commit_body d now route size cs upload s))
  unfolding commit_body
  commit_body-Shrinks route size cs upload s = ground (
    arith,
    transaction-Shrinks (commit_all route size cs upload)
        (>>-Shrinks (commit_components route upload cs) (commit_row route size (length cs) upload)
          (commit_components-Shrinks route upload cs)
          (commit_row-Shrinks route size (length cs) upload))
        s,
    release_owner-Shrinks upload none s,
  )

  pub commit_route-Shrinks :
      (route : Text) (size : ℕ) (cs : List ComponentRow) (upload : Text) (s : Store)
      → Shrinks s (after (commit_route d now route size cs upload s))
  unfolding commit_route
  commit_route-Shrinks route size cs upload s =
      after_test (λ o. Shrinks s (after o)) assert_open _ s assert_open-IsTest
        (commit_body-Shrinks route size cs upload s) (λ e. ground arith)
