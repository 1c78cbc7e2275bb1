-- ===== src/Examples/Blobs.antt =====
-- src/persistence/blob_store.ts at concrete inputs: one admission of three bytes.
use nixstr_cache.Prelude.{
  ℕ, ◌+◌, ◌%◌, ◌≡◌, refl, Bool, true, false, Option, none, some, List, [], ◌∷◌, inl, length, arith,
  All, Text, txt,
}
use nixstr_cache.BlobStore.State.{
  threw, capacity_unavailable, remote, ready, write, Reservation, Store, done, after,
}
use nixstr_cache.BlobStore.{used, Disk, reserve, release_reservation}
use nixstr_cache.BlobStore.Ops.{Source, fill, finally}
use nixstr_cache.BlobStore.Rows.{owned}
use nixstr_cache.BlobStore.Eviction.{Spares, IsHeld, reserve-Spares}
use nixstr_cache.BlobStore.Capacity.{Fits, Reserved, reserve-Reserved}
use nixstr_cache.BlobStore.System.{System, begins, finishes, Reach, here, next, Reach-Fits}

abbrev disk : Disk
disk = record { refuses_remove = λ _. none; refuses_link = λ _. none }

abbrev digest : List ℕ → Text
digest bytes =
    (b'0' + length bytes % 10)
    ∷ txt "00000000000000000000000000000000000000000000000000000000000000"

abbrev empty_store : Store
empty_store = record {
  db = record {
    catalog = [];
    owners = [];
    reservations = [];
    tombstones = [];
    routes = [];
    components = [];
  };
  capacity = 100;
  leases = [];
  files = [];
  closed = false;
}

abbrev promise : Reservation
promise = record { token = txt "t"; bytes = 5; created_at = 1 }

abbrev source : Source
source = record { chunks = (1 ∷ 2 ∷ []) ∷ (3 ∷ []) ∷ []; broken = false }

abbrev start : System
start = record { store = empty_store; pending = [] }

abbrev reserved_store : Store
reserved_store = record empty_store { db = record (empty_store.db) { reservations = promise ∷ [] } }

reserved : reserve disk 1 (txt "t") 5 empty_store ≡ done promise reserved_store
unfolding reserve nixstr_cache.BlobStore.assert_open nixstr_cache.BlobStore.guard
    nixstr_cache.BlobStore.reserve_tables nixstr_cache.BlobStore.make_space
    nixstr_cache.BlobStore.fits nixstr_cache.BlobStore.used nixstr_cache.BlobStore.ready_bytes
    nixstr_cache.BlobStore.reserved_bytes nixstr_cache.BlobStore.reserve_row
reserved = refl

abbrev begun : System
begun = record { store = reserved_store; pending = promise ∷ [] }

reached : Reach disk digest start begun
reached = next here (begins 1 (txt "t") 5 start promise reserved_store reserved)

reached_end : Reach disk digest start (record {
  store = after (
      finally
        (fill disk digest 2 source write none none promise)
        (release_reservation (txt "t"))
        reserved_store);
  pending = [];
})
unfolding nixstr_cache.Prelude.text_eq
reached_end = next reached (finishes 2 source write none none promise begun (inl refl))

fits_start : Fits empty_store
unfolding used nixstr_cache.BlobStore.ready_bytes nixstr_cache.BlobStore.reserved_bytes
fits_start = omega arith

Reach-Fits_example :
    Fits (
      after (
        finally
          (fill disk digest 2 source write none none promise)
          (release_reservation (txt "t"))
          reserved_store))
    × Unit {0}
Reach-Fits_example = Reach-Fits disk digest reached_end refl fits_start

reserve-Reserved_example : Reserved (txt "t") 5 empty_store (done promise reserved_store)
unfolding reserve nixstr_cache.BlobStore.assert_open nixstr_cache.BlobStore.guard
    nixstr_cache.BlobStore.reserve_tables nixstr_cache.BlobStore.make_space
    nixstr_cache.BlobStore.fits nixstr_cache.BlobStore.used nixstr_cache.BlobStore.ready_bytes
    nixstr_cache.BlobStore.reserved_bytes nixstr_cache.BlobStore.reserve_row
reserve-Reserved_example = reserve-Reserved disk 1 (txt "t") 5 empty_store

-- A store with a blob that is owned and one that is not, and too little room.
abbrev full_store : Store
full_store = record empty_store {
  db = record (empty_store.db) {
    catalog =
        record { hash = txt "a"; size = 60; origin = remote; last_accessed = 1; state = ready }
        ∷ record { hash = txt "b"; size = 30; origin = remote; last_accessed = 2; state = ready }
        ∷ [];
    owners = record { owner = txt "o"; hash = txt "a" } ∷ [];
  };
  files = (txt "a", 60) ∷ (txt "b", 30) ∷ [];
}

owned_blob : IsHeld (txt "a") full_store
unfolding owned nixstr_cache.Prelude.text_eq
owned_blob = inl refl

reserve-Spares_example :
    Spares (txt "a") full_store (after (reserve disk 3 (txt "t") 40 full_store))
reserve-Spares_example = reserve-Spares disk 3 (txt "a") (txt "t") 40 full_store owned_blob

-- A reservation that is refused has removed the file of the other blob, whose row is still there.
refused :
    reserve disk 3 (txt "t") 50 full_store
    ≡ threw capacity_unavailable (record full_store { files = (txt "a", 60) ∷ [] })
unfolding reserve nixstr_cache.BlobStore.assert_open nixstr_cache.BlobStore.guard
    nixstr_cache.BlobStore.reserve_tables nixstr_cache.BlobStore.make_space
    nixstr_cache.BlobStore.fits used nixstr_cache.BlobStore.ready_bytes
    nixstr_cache.BlobStore.reserved_bytes nixstr_cache.BlobStore.Rows.sort_rows
    nixstr_cache.BlobStore.Rows.evictable nixstr_cache.Prelude.text_eq nixstr_cache.Prelude.lookup
    nixstr_cache.BlobStore.delete nixstr_cache.BlobStore.Rows.mark_deleting
    nixstr_cache.BlobStore.reserve_row nixstr_cache.Prelude.remove
refused = refl
