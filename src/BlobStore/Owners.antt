-- ===== src/BlobStore/Owners.antt =====
-- src/persistence/blob_store.ts: owners, sweeps, and the immutable routes.
use nixstr_cache.Prelude.{
  ℕ, Bool, true, false, not, ◌&&◌, Option, none, some, List, [], ◌∷◌, map, ◌==◌, leb, if◌then◌else◌,
  length, keep, any, Text, txt, ◌++◌, text_eq,
}
use nixstr_cache.BlobStore.State.{
  OwnerRow, RouteRow, ComponentRow, Db, Store, constraint_failed, blob_not_found, route_conflict,
  ownership_missing, leases_open, done, threw, M, ◌>>=◌, ◌>>◌, pure, get_state, transaction,
}
use nixstr_cache.BlobStore.Rows.{owns, drop_owner, drop_owned, insert_owner}
use nixstr_cache.BlobStore.{Disk, inventory_limit, has_ready, guard, assert_open, validate_hash}
use nixstr_cache.BlobStore.Ops.{InventoryEntry, inventory, truthy, delete_if_unowned_write}

unfoldable pub set_owners : List OwnerRow → Store → Store
set_owners os s = record s { db = record (s.db) { owners = os } }

unfoldable pub acquire_owner : Text → Text → M (Unit {0})
unfolding validate_hash set_owners guard
acquire_owner owner hash = do
  validate_hash hash
  s ← get_state
  guard (has_ready s.db hash) blob_not_found
  (λ _. done tt (set_owners (insert_owner owner hash s.db.owners) s))

-- `for (const item of hashes) this.#deleteIfUnownedWrite(item)`.
unfoldable pub sweep : Disk → ℕ → List Text → M (Unit {0})
sweep d now [] = pure tt
sweep d now (h ∷ hs) = delete_if_unowned_write d now h >> sweep d now hs

-- `#sweepWrites`, over the default limit of `inventory`.
unfoldable pub sweep_writes : Disk → ℕ → M (Unit {0})
unfolding sweep
sweep_writes d now s =
    sweep d now (map (λ (e : InventoryEntry). e.hash) (inventory inventory_limit s.db)) s

abbrev pub hashes_of : Text → List OwnerRow → List Text
hashes_of owner os = map (λ (o : OwnerRow). o.hash) (keep (λ o. text_eq o.owner owner) os)

unfoldable pub insert_owners : Text → List Text → List OwnerRow → List OwnerRow
insert_owners owner [] os = os
insert_owners owner (h ∷ hs) os = insert_owners owner hs (insert_owner owner h os)

-- One round of the loop over `hashes` in `transferOwner`.
unfoldable pub transfer_one : Text → Text → Text → M (Unit {0})
unfolding validate_hash set_owners
transfer_one from to hash = do
  validate_hash hash
  s ← get_state
  let added = if owns from hash s.db.owners then insert_owner to hash s.db.owners else s.db.owners
  (λ _. done tt (set_owners (drop_owned from hash added) s))

unfoldable pub transfer_each : Text → Text → List Text → M (Unit {0})
unfolding transfer_one
transfer_each from to [] = pure tt
transfer_each from to (h ∷ hs) = transfer_one from to h >> transfer_each from to hs

unfoldable pub transfer_all : Text → Text → M (Unit {0})
unfolding insert_owners set_owners
transfer_all from to s =
    done tt
      (set_owners (drop_owner from (insert_owners to (hashes_of from s.db.owners) s.db.owners)) s)

unfoldable pub transfer_owner : Disk → ℕ → Text → Text → Option (List Text) → M (Unit {0})
unfolding sweep_writes transfer_each transfer_all
transfer_owner d now from to none = transaction (transfer_all from to) >> sweep_writes d now
transfer_owner d now from to (some hashes) =
    transaction (transfer_each from to hashes) >> sweep_writes d now

unfoldable pub release_one : Disk → ℕ → Text → Text → M (Unit {0})
unfolding validate_hash set_owners
release_one d now owner hash = do
  validate_hash hash
  s ← get_state
  (λ _. delete_if_unowned_write d now hash (set_owners (drop_owned owner hash s.db.owners) s))

unfoldable pub release_all : Disk → ℕ → Text → M (Unit {0})
unfolding sweep set_owners
release_all d now owner s =
    sweep d now (hashes_of owner s.db.owners) (set_owners (drop_owner owner s.db.owners) s)

abbrev pub release_target : Disk → ℕ → Text → Option Text → M (Unit {0})
release_target d now owner none = release_all d now owner
release_target d now owner (some hash) = release_one d now owner hash

-- `releaseOwner`; an empty hash counts as none.
unfoldable pub release_owner : Disk → ℕ → Text → Option Text → M (Unit {0})
unfolding release_one release_all
release_owner d now owner hash = release_target d now owner (truthy hash)

unfoldable pub insert_component : ComponentRow → List ComponentRow → List ComponentRow
insert_component c [] = c ∷ []
insert_component c (x ∷ xs) = if leb c.index x.index then c ∷ x ∷ xs else x ∷ insert_component c xs

unfoldable pub sort_components : List ComponentRow → List ComponentRow
unfolding insert_component
sort_components [] = []
sort_components (c ∷ cs) = insert_component c (sort_components cs)

-- `routeComponents`, in the order of the index.
unfoldable pub route_components : Text → Db → List ComponentRow
unfolding sort_components
route_components route db =
    sort_components (keep (λ (c : ComponentRow). text_eq c.route route) db.components)

unfoldable pub same_components : List ComponentRow → List ComponentRow → Bool
same_components [] [] = true
same_components [] (_ ∷ _) = false
same_components (_ ∷ _) [] = false
same_components (a ∷ xs) (b ∷ ys) =
    text_eq a.hash b.hash && a.size == b.size && same_components xs ys

-- `route:${route}`.
abbrev pub route_owner : Text → Text
route_owner route = txt "route:" ++ route

unfoldable pub commit_component : Text → Text → ComponentRow → M (Unit {0})
unfolding validate_hash guard
commit_component route upload c = do
  validate_hash c.hash
  s ← get_state
  guard (owns upload c.hash s.db.owners) ownership_missing
  guard
      (not
        (any (λ (k : ComponentRow). text_eq k.route route && k.index == c.index) s.db.components))
      constraint_failed
  (λ _. done tt (record s {
    db = record (s.db) {
      components = record c { route = route } ∷ s.db.components;
      owners = insert_owner (route_owner route) c.hash s.db.owners;
    };
  }))

unfoldable pub commit_components : Text → Text → List ComponentRow → M (Unit {0})
unfolding commit_component
commit_components route upload [] = pure tt
commit_components route upload (c ∷ cs) =
    commit_component route upload c >> commit_components route upload cs

unfoldable pub commit_row : Text → ℕ → ℕ → Text → M (Unit {0})
commit_row route size count upload s =
    if any (λ (r : RouteRow). text_eq r.route route) s.db.routes
    then threw constraint_failed s
    else done tt (record s {
      db = record (s.db) {
        routes = record { route = route; size = size; component_count = count } ∷ s.db.routes;
        owners = drop_owner upload s.db.owners;
      };
    })

abbrev pub commit_all : Text → ℕ → List ComponentRow → Text → M (Unit {0})
commit_all route size components upload =
    commit_components route upload components >> commit_row route size (length components) upload

-- `commitRoute`, past the check that the store is open.
unfoldable pub commit_body : Disk → ℕ → Text → ℕ → List ComponentRow → Text → M (Unit {0})
commit_body d now route size components upload s =
    if length (route_components route s.db) == 0
    then transaction (commit_all route size components upload) s
    else if same_components (route_components route s.db) components
    then release_owner d now upload none s
    else threw route_conflict s

unfoldable pub commit_route : Disk → ℕ → Text → ℕ → List ComponentRow → Text → M (Unit {0})
commit_route d now route size components upload =
    assert_open >> commit_body d now route size components upload

unfoldable pub close : M (Unit {0})
close s =
    if s.closed
    then done tt s
    else if leb 1 (length s.leases)
    then threw leases_open s
    else done tt (record s { closed = true })
