-- ===== src/BlobStore/Rows.antt =====
-- src/persistence/blob_store.ts: the queries and updates of single tables.
use nixstr_cache.Prelude.{
  ℕ, Bool, true, false, not, ◌&&◌, ◌||◌, Option, List, [], ◌∷◌, leb, ltb, ◌==◌, if◌then◌else◌,
  length, keep, any, all, find, Text, text_eq, text_lt,
}
use nixstr_cache.BlobStore.State.{
  Origin, write, remote, mixed, RowState, ready, deleting, CatalogRow, OwnerRow, Db,
}

unfoldable pub is_hex_digit : ℕ → Bool
is_hex_digit c = (leb b'0' c && leb c b'9') || (leb b'a' c && leb c b'f')

-- `HASH = /^[0-9a-f]{64}$/`.
unfoldable pub is_hash : Text → Bool
unfolding is_hex_digit
is_hash hash = length hash == 64 && all is_hex_digit hash

abbrev pub is_write : Origin → Bool
is_write write = true
is_write _ = false

unfoldable pub same_origin : Origin → Origin → Bool
same_origin write write = true
same_origin remote remote = true
same_origin mixed mixed = true
same_origin _ _ = false

abbrev pub ready_state : RowState → Bool
ready_state ready = true
ready_state deleting = false

abbrev pub is_ready : CatalogRow → Bool
is_ready r = ready_state r.state

-- What a row adds to `SUM(size)` over the ready rows.
abbrev pub size_ready : CatalogRow → ℕ
size_ready r = if is_ready r then r.size else 0

abbrev pub row_of : Text → List CatalogRow → Option CatalogRow
row_of hash = find (λ r. text_eq r.hash hash)

unfoldable pub owned : Db → Text → Bool
owned db hash = any (λ (o : OwnerRow). text_eq o.hash hash) db.owners

-- `DELETE FROM blob_store_owners WHERE owner=?`, and with `AND hash=?`.
unfoldable pub drop_owner : Text → List OwnerRow → List OwnerRow
drop_owner owner = keep (λ o. not (text_eq o.owner owner))

unfoldable pub drop_owned : Text → Text → List OwnerRow → List OwnerRow
drop_owned owner hash = keep (λ o. not (text_eq o.owner owner && text_eq o.hash hash))

unfoldable pub owns : Text → Text → List OwnerRow → Bool
owns owner hash = any (λ o. text_eq o.owner owner && text_eq o.hash hash)

-- `INSERT OR IGNORE INTO blob_store_owners`.
unfoldable pub insert_owner : Text → Text → List OwnerRow → List OwnerRow
unfolding owns
insert_owner owner hash os =
    if owns owner hash os then os else record { owner = owner; hash = hash } ∷ os

-- `UPDATE blob_store_catalog SET state='deleting' WHERE hash=?`.
unfoldable pub mark_deleting : Text → List CatalogRow → List CatalogRow
mark_deleting hash [] = []
mark_deleting hash (r ∷ rs) =
    (if text_eq r.hash hash then record r { state = deleting } else r) ∷ mark_deleting hash rs

-- `UPDATE blob_store_catalog SET last_accessed=? WHERE hash=?`.
unfoldable pub touch : Text → ℕ → List CatalogRow → List CatalogRow
touch hash now [] = []
touch hash now (r ∷ rs) =
    (if text_eq r.hash hash then record r { last_accessed = now } else r) ∷ touch hash now rs

-- The upsert of `#promote`: a row that is there keeps its size.
unfoldable pub upsert : CatalogRow → List CatalogRow → List CatalogRow
upsert n [] = n ∷ []
upsert n (r ∷ rs) =
    if text_eq r.hash n.hash then record n { size = r.size } ∷ rs else r ∷ upsert n rs

-- `ORDER BY b.last_accessed,b.hash`.
unfoldable pub eviction_order : CatalogRow → CatalogRow → Bool
eviction_order a b =
    ltb a.last_accessed b.last_accessed
    || (a.last_accessed == b.last_accessed && not (text_lt b.hash a.hash))

-- `ORDER BY b.hash`.
unfoldable pub hash_order : CatalogRow → CatalogRow → Bool
hash_order a b = not (text_lt b.hash a.hash)

unfoldable pub insert_sorted :
    (CatalogRow → CatalogRow → Bool) → CatalogRow → List CatalogRow → List CatalogRow
insert_sorted le r [] = r ∷ []
insert_sorted le r (x ∷ xs) = if le r x then r ∷ x ∷ xs else x ∷ insert_sorted le r xs

unfoldable pub sort_rows : (CatalogRow → CatalogRow → Bool) → List CatalogRow → List CatalogRow
unfolding insert_sorted
sort_rows le [] = []
sort_rows le (r ∷ rs) = insert_sorted le r (sort_rows le rs)

-- The condition of the query in `#makeSpace`.
unfoldable pub evictable : Db → CatalogRow → Bool
unfolding owned
evictable db r = is_ready r && not (is_write r.origin) && not (owned db r.hash)
