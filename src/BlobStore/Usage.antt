-- ===== src/BlobStore/Usage.antt =====
-- src/persistence/blob_store.ts: how the updates of the tables change the sums that `usage` reads.
use nixstr_cache.Prelude.{
  ℕ, ◌+◌, ◌≤◌, ◌≡◌, refl, inl, inr, not, some, List, [], ◌∷◌, arith, Bool-cases, keep, sum_of,
  sum_of-keep-le, Text, text_eq, text_eq_iff, Any,
}
use nixstr_cache.BlobStore.State.{CatalogRow, Reservation}
use nixstr_cache.BlobStore.Rows.{size_ready, row_of, mark_deleting, touch, upsert}

abbrev pub total_ready : List CatalogRow → ℕ
total_ready = sum_of size_ready

abbrev pub total_reserved : List Reservation → ℕ
total_reserved = sum_of (λ (r : Reservation). r.bytes)

pub mark_deleting-le :
    (hash : Text) (rs : List CatalogRow) → total_ready (mark_deleting hash rs) ≤ total_ready rs
unfolding mark_deleting
mark_deleting-le hash [] = omega arith
mark_deleting-le hash (r ∷ rs) = ground (arith, mark_deleting-le hash rs)

pub touch-eq :
    (hash : Text) (now : ℕ) (rs : List CatalogRow)
    → total_ready (touch hash now rs) ≡ total_ready rs
unfolding touch
touch-eq hash now [] = refl
touch-eq hash now (r ∷ rs) = ground (arith, touch-eq hash now rs)

-- An upsert adds at most the size of the row, if a row of the same hash has the same size.
pub upsert-le :
    (n : CatalogRow) (rs : List CatalogRow)
    → ((r : CatalogRow) → row_of n.hash rs ≡ some r → r.size ≡ n.size)
    → total_ready (upsert n rs) ≤ total_ready rs + n.size
unfolding upsert
upsert-le n [] same = ground arith
upsert-le n (r ∷ rs) same = elim (Bool-cases (text_eq r.hash n.hash)) [
  | inl hit ↦ let e : r.size ≡ n.size = same r (rw hit) in ground (arith, e)
  | inr miss ↦ ground (arith, upsert-le n rs (λ q e. same q (rw miss e)))
]

pub drop_row-le :
    (hash : Text) (rs : List CatalogRow)
    → total_ready (keep (λ r. not (text_eq r.hash hash)) rs) ≤ total_ready rs
drop_row-le hash rs = sum_of-keep-le size_ready (λ r. not (text_eq r.hash hash)) rs

pub drop_token-le :
    (token : Text) (rs : List Reservation)
    → total_reserved (keep (λ q. not (text_eq q.token token)) rs) ≤ total_reserved rs
drop_token-le token rs =
    sum_of-keep-le (λ (q : Reservation). q.bytes) (λ q. not (text_eq q.token token)) rs

-- A reservation that is deleted gives its bytes back.
abbrev pub HoldsToken : Text → ℕ → List Reservation → Type 0
HoldsToken token bytes = Any (λ r. (r.token ≡ token) × (r.bytes ≡ bytes))

pub drop_token_frees :
    (token : Text) (bytes : ℕ) (rs : List Reservation)
    → HoldsToken token bytes rs
    → total_reserved (keep (λ q. not (text_eq q.token token)) rs) + bytes ≤ total_reserved rs
drop_token_frees token bytes [] h = absurd h
drop_token_frees token bytes (r ∷ rs) (inl (e, b)) =
    ground (arith, (text_eq_iff r.token token).1 e, drop_token-le token rs)
drop_token_frees token bytes (r ∷ rs) (inr h) = ground (arith, drop_token_frees token bytes rs h)
