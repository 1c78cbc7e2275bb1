-- ===== src/StateRepository/Ranks.antt =====
-- src/persistence/state_repository.ts: the best of a list of publications, by the test of the code.
use nixstr_cache.Prelude.{
  ℕ, ◌≡◌, ◌⊎◌, Bool, true, false, ◌&&◌, Option, none, some, List, [], ◌∷◌, if◌then◌else◌, arith,
  Text, text_eq, text_eq_iff, text_eq_sound, text_lt_trans, text_lt_irrefl,
}
use nixstr_cache.Publication.{RawPublication, Validated, cache_identity}
use nixstr_cache.StateRepository.{newer}

unfoldable pub beats : RawPublication → Option (ℕ × Text) → Bool
beats e none = true
beats e (some (t, id)) = newer e.created_at e.id t id

newer_trans :
    (t u w : ℕ) (i j k : Text) → newer t i u j ≡ true → newer u j w k ≡ true → newer t i w k ≡ true
unfolding newer
newer_trans t u w i j k h l = ground (arith, text_lt_trans i j k)

newer_irrefl : (t : ℕ) (i : Text) → newer t i t i ≡ false
unfolding newer
newer_irrefl t i = ground (arith, text_lt_irrefl i)

-- The rank after an offer: the offered one if it beats the old one.
unfoldable pub best_of : Text → Validated → Option (ℕ × Text) → Option (ℕ × Text)
best_of identity v r =
    if text_eq (cache_identity v.identity) identity && beats v.event r
    then some ((v.event).created_at, (v.event).id)
    else r

-- The best of a list is the newest of it and of what was before.
unfoldable pub best_all : Text → List Validated → Option (ℕ × Text) → Option (ℕ × Text)
best_all identity [] r = r
best_all identity (v ∷ vs) r = best_all identity vs (best_of identity v r)

-- What did not beat a rank does not beat a better one.
pub beats-best_of :
    (identity : Text) (e : RawPublication) (v : Validated) (r : Option (ℕ × Text))
    → beats e r ≡ false
    → beats e (best_of identity v r) ≡ false
unfolding beats best_of
beats-best_of identity e v none h = ground arith
beats-best_of identity e v (some (t, i)) h =
    ground (arith, newer_trans e.created_at (v.event).created_at t e.id (v.event).id i)

pub best_of_beaten :
    (identity : Text) (v : Validated) (r : Option (ℕ × Text))
    → cache_identity v.identity ≡ identity
    → beats v.event (best_of identity v r) ≡ false
unfolding beats best_of
best_of_beaten identity v none e = ground (
  arith,
  text_eq_iff (cache_identity v.identity) identity,
  newer_irrefl (v.event).created_at (v.event).id,
)
best_of_beaten identity v (some (t, i)) e = ground (
  arith,
  text_eq_iff (cache_identity v.identity) identity,
  newer_irrefl (v.event).created_at (v.event).id,
)

pub best_all-kept :
    (identity : Text) (e : RawPublication) (vs : List Validated) (r : Option (ℕ × Text))
    → beats e r ≡ false
    → beats e (best_all identity vs r) ≡ false
unfolding best_all
best_all-kept identity e [] r h = h
best_all-kept identity e (v ∷ vs) r h =
    best_all-kept identity e vs (best_of identity v r) (beats-best_of identity e v r h)

pub best_of-cases :
    (identity : Text) (v : Validated) (r : Option (ℕ × Text))
    → (best_of identity v r ≡ r)
      ⊎ ((cache_identity v.identity ≡ identity)
          × (best_of identity v r ≡ some ((v.event).created_at, (v.event).id)))
unfolding best_of
best_of-cases identity v r = ground (arith, text_eq_sound (cache_identity v.identity) identity)
