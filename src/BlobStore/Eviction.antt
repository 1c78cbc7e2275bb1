-- ===== src/BlobStore/Eviction.antt =====
-- src/persistence/blob_store.ts: which blobs `#makeSpace` may remove.
use nixstr_cache.Prelude.{
  ℕ, ◌≡◌, ◌≢◌, refl, sym, ap, subst, ◌∙◌, ◌⊎◌, inl, inr, arith, Bool, true, false, not, List, [],
  ◌∷◌, Bool-cases, is_some, keep, All, Text, text_eq, text_eq_iff, lookup, remove, lookup-remove,
}
use nixstr_cache.BlobStore.State.{
  CatalogRow, Store, after, Outcome-cases, after_test, >>-IsTest, ◌>>◌, invalid_reservation,
}
use nixstr_cache.BlobStore.Rows.{
  row_of, owned, mark_deleting, evictable, sort_rows, insert_sorted, eviction_order,
}
use nixstr_cache.BlobStore.{
  Disk, fits, delete, delete_row, finish_delete, Removal, removed, not_found, failed, removal, bury,
  exhume, make_space, make_space_loop, candidates, reserve, reserve_tables, reserve_row, reservable,
  guard, guard-IsTest, assert_open, assert_open-IsTest,
}

-- The row, the file and the leases of a hash are as they were.
pub record Spares (hash : Text) (s s' : Store) : Type 0 where
  pub row : row_of hash s'.db.catalog ≡ row_of hash s.db.catalog
  pub file : lookup hash s'.files ≡ lookup hash s.files
  pub leases : s'.leases ≡ s.leases

row_of-mark_deleting :
    (h hash : Text) (rs : List CatalogRow)
    → h ≢ hash
    → row_of hash (mark_deleting h rs) ≡ row_of hash rs
unfolding mark_deleting
row_of-mark_deleting h hash [] ne = refl
row_of-mark_deleting h hash (r ∷ rs) ne =
    ground (arith, text_eq_iff r.hash h, text_eq_iff r.hash hash, row_of-mark_deleting h hash rs ne)

row_of-keep :
    (h hash : Text) (rs : List CatalogRow)
    → h ≢ hash
    → row_of hash (keep (λ r. not (text_eq r.hash h)) rs) ≡ row_of hash rs
row_of-keep h hash [] ne = refl
row_of-keep h hash (r ∷ rs) ne =
    ground (arith, text_eq_iff r.hash h, text_eq_iff r.hash hash, row_of-keep h hash rs ne)

lookup-remove_other :
    (h hash : Text) (fs : List (Text × ℕ)) → h ≢ hash → lookup hash (remove h fs) ≡ lookup hash fs
lookup-remove_other h hash fs ne = ground (arith, lookup-remove h hash fs, text_eq_iff h hash)

finish_delete-Spares :
    (m : Removal) (h hash : Text) (now : ℕ) (s : Store)
    → h ≢ hash
    → Spares hash s (after (finish_delete m h now s))
unfolding finish_delete delete_row bury exhume
finish_delete-Spares removed h hash now s ne =
    ground (arith, row_of-keep h hash s.db.catalog ne, lookup-remove_other h hash s.files ne)
finish_delete-Spares not_found h hash now s ne = ground (arith, row_of-keep h hash s.db.catalog ne)
finish_delete-Spares (failed e) h hash now s ne = ground arith

delete-Spares :
    (d : Disk) (now : ℕ) (h hash : Text) (s : Store)
    → h ≢ hash
    → Spares hash s (after (delete d now h s))
unfolding delete
delete-Spares d now h hash s ne =
    let marked = record s { db = record (s.db) { catalog = mark_deleting h s.db.catalog } } in
    let v = finish_delete-Spares (removal d s h) h hash now marked ne in
    record {
      row = v.row ∙ row_of-mark_deleting h hash s.db.catalog ne;
      file = v.file;
      leases = v.leases;
    }

Spares-refl : (hash : Text) (s : Store) → Spares hash s s
Spares-refl hash s = record { row = refl; file = refl; leases = refl }

Spares-trans : (hash : Text) (s t u : Store) → Spares hash s t → Spares hash t u → Spares hash s u
Spares-trans hash s t u v w = record {
  row = w.row ∙ v.row;
  file = w.file ∙ v.file;
  leases = w.leases ∙ v.leases;
}

-- A row of another hash, or any row if the hash is leased.
abbrev Apart : Text → List (Text × ℕ) → CatalogRow → Type 0
Apart hash leases c = (c.hash ≢ hash) ⊎ (is_some (lookup hash leases) ≡ true)

unleased :
    (hash : Text) (leases : List (Text × ℕ)) (c : CatalogRow)
    → Apart hash leases c
    → is_some (lookup c.hash leases) ≡ false
    → c.hash ≢ hash
unleased hash leases c (inl ne) e = ne
unleased hash leases c (inr held) e =
    λ same. ground (arith, ap (λ h. is_some (lookup h leases)) same)

make_space_loop-Spares :
    (d : Disk) (now required : ℕ) (hash : Text) (cs : List CatalogRow) (s : Store)
    → All (Apart hash s.leases) cs
    → Spares hash s (after (make_space_loop d now required cs s))
unfolding make_space_loop
make_space_loop-Spares d now required hash [] s a = Spares-refl hash s
make_space_loop-Spares d now required hash (c ∷ cs) s (p, a) =
    elim (Bool-cases (is_some (lookup c.hash s.leases))) [
      | inl held ↦ rw held (make_space_loop-Spares d now required hash cs s a)
      | inr free ↦
          let v = delete-Spares d now c.hash hash s (unleased hash s.leases c p free) in
          elim (Outcome-cases (delete d now c.hash s)) [
            | inl (u, t, e) ↦
                let w = subst (λ o. Spares hash s (after o)) e v in
                rw (free, e, make_space_loop)
                  (elim (Bool-cases (fits t required)) [
                    | inl enough ↦ rw enough w
                    | inr short ↦ rw short (
                        Spares-trans hash s t _ w (
                          make_space_loop-Spares d now required hash cs t
                            (subst (λ l. All (Apart hash l) cs) (sym w.leases) a)))
                  ])
            | inr (x, t, e) ↦
                rw (free, e, make_space_loop) (subst (λ o. Spares hash s (after o)) e v)
          ]
    ]

All-insert_sorted :
    (P : CatalogRow → Type 0) (le : CatalogRow → CatalogRow → Bool) (r : CatalogRow)
    (rs : List CatalogRow)
    → P r
    → All P rs
    → All P (insert_sorted le r rs)
unfolding insert_sorted
All-insert_sorted P le r [] p a = (p, tt)
All-insert_sorted P le r (x ∷ xs) p (q, a) = elim (Bool-cases (le r x)) [
  | inl e ↦ rw e (p, (q, a))
  | inr e ↦ rw e (q, All-insert_sorted P le r xs p a)
]

All-sort_rows :
    (P : CatalogRow → Type 0) (le : CatalogRow → CatalogRow → Bool) (rs : List CatalogRow)
    → All P rs
    → All P (sort_rows le rs)
unfolding sort_rows
All-sort_rows P le [] a = tt
All-sort_rows P le (r ∷ rs) (p, a) =
    All-insert_sorted P le r (sort_rows le rs) p (All-sort_rows P le rs a)

-- A blob that someone owns or has leased.
abbrev pub IsHeld : Text → Store → Type 0
IsHeld hash s = (owned s.db hash ≡ true) ⊎ (is_some (lookup hash s.leases) ≡ true)

evictable-Apart :
    (hash : Text) (s : Store) (c : CatalogRow)
    → IsHeld hash s
    → evictable s.db c ≡ true
    → Apart hash s.leases c
unfolding evictable
evictable-Apart hash s c (inr held) e = inr held
evictable-Apart hash s c (inl mine) e = inl (λ same. ground (arith, ap (owned s.db) same))

keep-Apart :
    (hash : Text) (s : Store) (rs : List CatalogRow)
    → IsHeld hash s
    → All (Apart hash s.leases) (keep (evictable s.db) rs)
keep-Apart hash s [] h = tt
keep-Apart hash s (r ∷ rs) h = elim (Bool-cases (evictable s.db r)) [
  | inl e ↦ rw e (evictable-Apart hash s r h e, keep-Apart hash s rs h)
  | inr e ↦ rw e (keep-Apart hash s rs h)
]

make_space-Spares :
    (d : Disk) (now required : ℕ) (hash : Text) (s : Store)
    → IsHeld hash s
    → Spares hash s (after (make_space d now required s))
unfolding make_space candidates
make_space-Spares d now required hash s h = elim (Bool-cases (fits s required)) [
  | inl e ↦ rw e (Spares-refl hash s)
  | inr e ↦ rw e (
      make_space_loop-Spares d now required hash (candidates s.db) s
        (All-sort_rows (Apart hash s.leases) eviction_order _ (keep-Apart hash s s.db.catalog h)))
]

reserve_tables-Spares :
    (d : Disk) (now : ℕ) (hash token : Text) (bytes : ℕ) (s : Store)
    → IsHeld hash s
    → Spares hash s (after (reserve_tables d now token bytes s))
unfolding reserve_tables reserve_row
reserve_tables-Spares d now hash token bytes s h =
    ground (arith, make_space-Spares d now bytes hash s h)

-- A reservation, granted or refused, leaves alone every blob that is owned or leased: its catalog
-- row and its file stay as they were, and so do all leases.
pub reserve-Spares :
    (d : Disk) (now : ℕ) (hash token : Text) (bytes : ℕ) (s : Store)
    → IsHeld hash s
    → Spares hash s (after (reserve d now token bytes s))
unfolding reserve
reserve-Spares d now hash token bytes s h =
    let sized = guard (reservable bytes s) invalid_reservation in
    after_test (λ o. Spares hash s (after o)) (assert_open >> sized)
      (reserve_tables d now token bytes) s
      (>>-IsTest assert_open sized assert_open-IsTest (guard-IsTest _ _))
      (reserve_tables-Spares d now hash token bytes s h) (λ e. Spares-refl hash s)
