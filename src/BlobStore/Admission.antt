-- ===== src/BlobStore/Admission.antt =====
-- src/persistence/blob_store.ts: what `admit` and `admitVerifiedFile` do to the bytes in use.
use nixstr_cache.Prelude.{
  ℕ, ◌+◌, ◌≤◌, ◌≡◌, refl, ◌⊎◌, inl, inr, Bool, true, false, not, Option, some, List, [], ◌∷◌, arith,
  Bool-cases, length, keep, ◌==◌, ◌&&◌, Text, text_eq, insert, ltb, ltb-false, length-append,
}
use nixstr_cache.BlobStore.State.{
  exceeds_reservation, identity_changed, hash_mismatch, after_test, Origin, CatalogRow, Reservation,
  Store, Error, done, threw, after, transaction, ready,
}
use nixstr_cache.BlobStore.Rows.{row_of}
use nixstr_cache.BlobStore.Usage.{upsert-le, drop_token_frees}
use nixstr_cache.BlobStore.{Disk, used, ready_bytes, reserved_bytes, guard, guard-IsTest}
use nixstr_cache.BlobStore.Ops.{
  promote, promote_row, link, read_entry, size_conflict, merged_origin, truthy, read_chunks, Source,
  content, fill, expected_ok, import_file, check_file,
}
use nixstr_cache.BlobStore.Capacity.{Holds}

-- The loop hands on a size within the limit, and leaves the store as it is.
pub read_chunks-le :
    (limit size : ℕ) (cs : List (List ℕ)) (broken : Bool) (s : Store)
    → size ≤ limit
    → ((n : ℕ) × (read_chunks limit size cs broken s ≡ done n s)
        × (n ≤ limit)
        × (n ≡ size + length (content cs)))
      ⊎ ((e : Error) × (read_chunks limit size cs broken s ≡ threw e s))
unfolding read_chunks content
read_chunks-le limit size [] false s h = inl (size, refl, h, omega arith)
read_chunks-le limit size [] true s h = inr (_, refl)
read_chunks-le limit size (c ∷ cs) broken s h = elim (Bool-cases (ltb limit (size + length c))) [
  | inl over ↦ inr (exceeds_reservation, rw over)
  | inr within ↦ ground (
    arith,
    read_chunks-le limit (size + length c) cs broken s (ltb-false limit (size + length c) within),
    length-append c (content cs),
  )
]

-- What a promotion does to the bytes in use, and to the reservations of others.
pub record Spends (token : Text) (s s' : Store) : Type 0 where
  pub less : used s' ≤ used s
  pub same : s'.capacity ≡ s.capacity
  pub left :
      (s'.db.reservations ≡ s.db.reservations)
      ⊎ (s'.db.reservations
          ≡ keep (λ (r : Reservation). not (text_eq r.token token)) s.db.reservations)

size_conflict_none :
    (hash : Text) (size : ℕ) (rs : List CatalogRow)
    → size_conflict (row_of hash rs) size ≡ false
    → (r : CatalogRow) → row_of hash rs ≡ some r
    → r.size ≡ size
unfolding size_conflict
size_conflict_none hash size rs h r e = ground arith

promote_row-Spends :
    (hash : Text) (size : ℕ) (origin : Origin) (owner : Option Text) (token : Text) (now bytes : ℕ)
    (s : Store)
    → Holds token bytes s
    → size ≤ bytes
    → Spends token s (after (transaction (promote_row hash size origin owner token now) s))
unfolding promote_row used ready_bytes reserved_bytes
promote_row-Spends hash size origin owner token now bytes s held h =
    elim (Bool-cases (size_conflict (row_of hash s.db.catalog) size)) [
      | inl clash ↦ ground arith
      | inr agreed ↦ ground (
        arith,
        upsert-le
            (record {
              hash = hash;
              size = size;
              origin = merged_origin (row_of hash s.db.catalog) origin;
              last_accessed = now;
              state = ready;
            })
            s.db.catalog (size_conflict_none hash size s.db.catalog agreed),
        drop_token_frees token bytes s.db.reservations held,
      )
    ]

promote-Spends :
    (d : Disk) (now : ℕ) (hash : Text) (size : ℕ) (origin : Origin) (owner : Option Text)
    (token : Text) (bytes : ℕ) (s : Store)
    → Holds token bytes s
    → size ≤ bytes
    → Spends token s (after (promote d now hash size origin owner token s))
unfolding promote link read_entry used
promote-Spends d now hash size origin owner token bytes s held h = ground (
  arith,
  promote_row-Spends hash size origin owner token now bytes s held h,
  promote_row-Spends hash size origin owner token now bytes
      (record s { files = insert hash size s.files }) held h,
)

module _ (d : Disk) (sha256 : List ℕ → Text) (now : ℕ) where
  pub fill-Spends :
      (source : Source) (origin : Origin) (owner expected : Option Text) (r : Reservation)
      (s : Store)
      → Holds r.token r.bytes s
      → Spends r.token s (after (fill d sha256 now source origin owner expected r s))
  unfolding fill
  fill-Spends source origin owner expected r s held =
      let hash = sha256 (content source.chunks) in
      elim (read_chunks-le r.bytes 0 source.chunks source.broken s (omega arith)) [
        | inl (n, e, h, _) ↦
            rw (e, fill, after)
              (after_test (λ o. Spends r.token s (after o))
                (guard (expected_ok (truthy expected) hash) hash_mismatch)
                (promote d now hash n origin owner r.token) s (guard-IsTest _ _)
                (promote-Spends d now hash n origin owner r.token r.bytes s held h)
                (λ x. ground arith))
        | inr (x, e) ↦ rw (e, fill, after) (ground arith)
      ]

  pub import_file-Spends :
      (chunks : List (List ℕ)) (hash : Text) (origin : Origin) (owner : Option Text)
      (r : Reservation) (s : Store)
      → Holds r.token r.bytes s
      → Spends r.token s
          (after (import_file d sha256 now chunks hash r.bytes origin owner r.token s))
  unfolding import_file check_file
  import_file-Spends chunks hash origin owner r s held =
      elim (read_chunks-le r.bytes 0 chunks false s (omega arith)) [
        | inl (n, e, h, _) ↦
            rw (e, import_file, after)
              (after_test (λ o. Spends r.token s (after o))
                (guard (n == r.bytes && text_eq (sha256 (content chunks)) hash) identity_changed)
                (promote d now hash r.bytes origin owner r.token) s (guard-IsTest _ _)
                (promote-Spends d now hash r.bytes origin owner r.token r.bytes s held
                  (omega arith))
                (λ x. ground arith))
        | inr (x, e) ↦ rw (e, import_file, after) (ground arith)
      ]
