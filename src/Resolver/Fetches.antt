-- ===== src/Resolver/Fetches.antt =====
-- src/hashtree/reader.ts, `#fetch` and `#manifest`: what they return, with an authentic fetcher.
use nixstr_cache.Prelude.{
  ℕ, suc, ◌+◌, ◌-◌, ◌<◌, ◌≤◌, ◌≡◌, refl, ◌∙◌, not, Option, none, some, List, leb, min, Text, arith,
}
use nixstr_cache.Prelude.Result.{Result, ok, err}
use nixstr_cache.Budget
use nixstr_cache.Budget.{
  Budget, Outcome, acquire, release, visit, debit_decoded, debit_links, check_depth,
  ensure_output_available, transfer_exceeded, remaining_transfer, max_safe,
}
use nixstr_cache.Budget.Bounds.{IsWithin}
use nixstr_cache.Manifest.{Manifest, Validated}
use nixstr_cache.Manifest.Rules.{decode_validated}
use nixstr_cache.Resolver.Step.{
  Error, spent, State, Reply, done, failed, continue, ◌>>=◌, ◌>>◌, of_result, on_outcome, spend,
}
use nixstr_cache.Resolver.Fetch.{
  World, FetchError, over_budget, no_source, FetchLimits, ask, transfer, fetch_blob, free, over,
  declared_or_max, fetch_error,
}
use nixstr_cache.Resolver.Runs.{Keeps, Explained, Keeps-refl, Good, Runs, Fair, Runs-guard}

abbrev manifest_in : {E : Type 0} → Result E Validated → Option Manifest
manifest_in (ok v) = some (v.manifest)
manifest_in (err e) = none

-- The manifest that a hash stands for, where each hash has one content.
unfoldable pub tree_of : World → (Text → List ℕ) → Text → Option Manifest
tree_of w content hash = manifest_in (decode_validated w.codec (content hash) w.limits)

-- What the blob fetcher and the manifest cache promise: bytes come with their digest checked, the
-- calls back only spend, and a manifest that is recalled was once loaded.
pub record IsAuthentic (w : World) (content : Text → List ℕ) : Type 0 where
  pub bytes :
      (hash : Text) (limits : FetchLimits) (b : Budget) (tick : ℕ) {x : List ℕ}
      → (w.fetch hash limits b tick).result ≡ ok x
      → x ≡ content hash
  pub spends :
      (hash : Text) (limits : FetchLimits) (b : Budget) (tick : ℕ)
      → Keeps b (w.fetch hash limits b tick).budget
  pub recalls :
      (hash : Text) (tick : ℕ) {v : Validated}
      → w.recall hash tick ≡ some (ok v)
      → decode_validated w.codec (content hash) w.limits ≡ ok v
  pub refuses :
      (hash : Text) (tick : ℕ) {e : Error} → w.recall hash tick ≡ some (err e) → Explained ⊥ e

-- The calls on the budget.
pub visit-Fair : (now : ℕ) (hash : Text) (b : Budget) → Fair b (λ _. Unit {0}) (visit now hash b)
unfolding visit
visit-Fair now hash b = ground arith

pub debit_decoded-Fair : (now n : ℕ) (b : Budget) → Fair b (λ _. Unit {0}) (debit_decoded now n b)
unfolding debit_decoded
debit_decoded-Fair now n b = ground arith

pub debit_links-Fair : (now n : ℕ) (b : Budget) → Fair b (λ _. Unit {0}) (debit_links now n b)
unfolding debit_links
debit_links-Fair now n b = ground arith

pub ensure_output_available-Fair :
    (now n : ℕ) (b : Budget) → Fair b (λ _. Unit {0}) (ensure_output_available now n b)
unfolding ensure_output_available
ensure_output_available-Fair now n b = ground arith

pub check_depth-Fair :
    (now depth : ℕ) (b : Budget)
    → Fair b (λ _. depth ≤ b.limits.max_depth) (check_depth now depth b)
unfolding check_depth
check_depth-Fair now depth b = ground arith

acquire-held :
    (now : ℕ) (b : Budget) {u : Unit {0}} {b' : Budget}
    → acquire now b ≡ Outcome.done u b'
    → (b.concurrent < b.limits.max_concurrent) × (b' ≡ record b { concurrent = b.concurrent + 1 })
unfolding acquire
acquire-held now b h = ground arith

-- A slot that was taken, and given back after a call that keeps the budget.
slot-Keeps :
    (b b' c : Budget)
    → b.concurrent < b.limits.max_concurrent
    → b' ≡ record b { concurrent = b.concurrent + 1 }
    → Keeps b' c
    → Keeps b (record c { concurrent = c.concurrent - 1 })
slot-Keeps b b' c h e k =
    let f : b'.limits ≡ b.limits = cc in
    record {
      spends = ground (arith, k.spends, e);
      slots = ground (arith, k.slots, e);
      within = λ v. within v (k.within (ground (arith, v, e)));
    }
  where
    within : IsWithin b → IsWithin c → IsWithin (record c { concurrent = c.concurrent - 1 })
    within v u = ground (arith, u)

module _ (w : World) (content : Text → List ℕ) (auth : IsAuthentic w content)
    (limits : Budget.Limits) where
  ask-Runs :
      (hash : Text) (l : FetchLimits)
      → Runs limits (tree_of w content) (λ x. x ≡ content hash) ⊥ (ask w hash l)
  unfolding ask
  ask-Runs hash l s v =
      answer (w.fetch hash l s.budget s.tick).result (λ x e. auth.bytes hash l s.budget s.tick e)
        (auth.spends hash l s.budget s.tick)
    where
      answer :
          (r : Result FetchError (List ℕ))
          → ((x : List ℕ) → r ≡ ok x → x ≡ content hash)
          → Keeps s.budget (w.fetch hash l s.budget s.tick).budget
          → Good limits
              (tree_of w content)
              (λ x. x ≡ content hash)
              ⊥
              s
              (of_result fetch_error r (record s {
                budget = (w.fetch hash l s.budget s.tick).budget;
                tick = (w.fetch hash l s.budget s.tick).tick;
              }))
      answer (ok x) h k = record {
        keeps = k;
        request = record { limits = (k.spends).limits ∙ v.limits; known = v.known };
        value = h x refl;
      }
      answer (err (over_budget e)) h k = record {
        keeps = k;
        request = record { limits = (k.spends).limits ∙ v.limits; known = v.known };
        value = tt;
      }
      answer (err (no_source os)) h k = record {
        keeps = k;
        request = record { limits = (k.spends).limits ∙ v.limits; known = v.known };
        value = tt;
      }

  transfer-Runs :
      (hash : Text) (d : Option ℕ) (ceiling : ℕ)
      → Runs limits (tree_of w content) (λ x. x ≡ content hash) ⊥ (transfer w hash d ceiling)
  unfolding transfer
  transfer-Runs hash d ceiling s v =
      let b = s.budget in
      let most =
        min (min b.limits.max_blob_transfer_bytes (remaining_transfer b))
          (min ceiling (declared_or_max d)) in
      let l : FetchLimits = record { max_transfer = most; declared = d } in
      Runs-guard limits (tree_of w content) (λ x. x ≡ content hash) ⊥ (leb 1 most)
        (spent transfer_exceeded) (ask w hash l) tt (λ _. ask-Runs hash l) s v

  slot-Good :
      {A : Type 0} (R : A → Type 0) (s : State) (b' : Budget) (r : Reply A)
      → s.budget.concurrent < s.budget.limits.max_concurrent
      → b' ≡ record (s.budget) { concurrent = s.budget.concurrent + 1 }
      → Good limits (tree_of w content) R ⊥ (record s { budget = b'; tick = suc s.tick }) r
      → Good limits (tree_of w content) R ⊥ s (free r)
  unfolding release
  slot-Good R s b' (done a t) h e g = record {
    keeps = slot-Keeps s.budget b' t.budget h e g.keeps;
    request = record { limits = (g.request).limits; known = (g.request).known };
    value = g.value;
  }
  slot-Good R s b' (failed x t) h e g = record {
    keeps = slot-Keeps s.budget b' t.budget h e g.keeps;
    request = record { limits = (g.request).limits; known = (g.request).known };
    value = g.value;
  }

  -- The fetch, behind the call for a slot.
  held-Runs :
      (hash : Text) (d : Option ℕ) (ceiling : ℕ)
      → Runs limits
          (tree_of w content)
          (λ x. x ≡ content hash)
          ⊥
          (spend w.clock acquire >>= (λ _ t. free (transfer w hash d ceiling t)))
  unfolding spend
  held-Runs hash d ceiling s v =
      held (acquire (w.clock s.tick) s.budget) (λ u b' e. acquire-held (w.clock s.tick) s.budget e)
    where
      held :
          (o : Outcome (Unit {0}))
          → ((u : Unit {0}) (b' : Budget)
              → o ≡ Outcome.done u b'
              → (s.budget.concurrent < s.budget.limits.max_concurrent)
                × (b' ≡ record (s.budget) { concurrent = s.budget.concurrent + 1 }))
          → Good limits
              (tree_of w content)
              (λ x. x ≡ content hash)
              ⊥
              s
              (continue (on_outcome o s) (λ _ t. free (transfer w hash d ceiling t)))
      held (Outcome.done u b') h =
          let (room, e) = h u b' refl in
          let t : State = record s { budget = b'; tick = suc s.tick } in
          slot-Good (λ x. x ≡ content hash) s b' (transfer w hash d ceiling t) room e
            (transfer-Runs hash d ceiling t (record { limits = rw e v.limits; known = v.known }))
      held (Outcome.threw x) h = record {
        keeps = Keeps-refl s.budget;
        request = record { limits = v.limits; known = v.known };
        value = tt;
      }

  pub fetch_blob-Runs :
      (hash : Text) (d : Option ℕ) (ceiling : ℕ)
      → Runs limits (tree_of w content) (λ x. x ≡ content hash) ⊥ (fetch_blob w hash d ceiling)
  unfolding fetch_blob
  fetch_blob-Runs hash d ceiling s v =
      Runs-guard limits (tree_of w content) (λ x. x ≡ content hash) ⊥
        (not (over d s.budget.limits.max_blob_transfer_bytes)) (spent transfer_exceeded)
        (spend w.clock acquire >> (λ t. free (transfer w hash d ceiling t))) tt
        (λ _. held-Runs hash d ceiling) s v
