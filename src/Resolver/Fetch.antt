-- ===== src/Resolver/Fetch.antt =====
-- src/hashtree/reader.ts: `#fetch` and `#manifest`, over the fetcher and the manifest cache.
use nixstr_cache.Prelude.{
  ℕ, Bool, true, false, not, Option, none, some, List, ◌∷◌, ltb, leb, min, Text, lookup,
}
use nixstr_cache.Prelude.Result.{Result}
use nixstr_cache.Budget
use nixstr_cache.Budget.{
  Budget, check_depth, debit_links, visit, debit_decoded, remaining_transfer, acquire, release,
  transfer_exceeded, max_safe,
}
use nixstr_cache.Manifest
use nixstr_cache.Manifest.Value.{Codec}
use nixstr_cache.Manifest.{Manifest, Validated}
use nixstr_cache.Manifest.Rules.{decode_validated}
use nixstr_cache.Resolver.Step.{
  Error, spent, invalid, unavailable, State, Reply, done, failed, Step, ◌>>=◌, ◌>>◌, pure, ensure,
  of_result, spend,
}

pub data FetchError : Type 0 where
  over_budget : Budget.Error → FetchError
  no_source : List Text → FetchError

-- `BlobFetchLimits`, less the attempts and the calls back.
pub record FetchLimits : Type 0 where
  pub max_transfer : ℕ
  pub declared : Option ℕ

-- What the fetcher returns or throws, and what its calls back have left.
pub record Fetched : Type 0 where
  pub result : Result FetchError (List ℕ)
  pub budget : Budget
  pub tick : ℕ

-- The parts of the process that the resolver uses. `recall` is the answer of the manifest cache
-- where it does not call its loader: a hit, or what a load of another request came to.
pub record World : Type 0 where
  pub clock : ℕ → ℕ
  pub fetch : Text → FetchLimits → Budget → ℕ → Fetched
  pub recall : Text → ℕ → Option (Result Error Validated)
  pub codec : Codec
  pub limits : Manifest.Limits

abbrev pub fetch_error : FetchError → Error
fetch_error (over_budget e) = spent e
fetch_error (no_source os) = unavailable os

-- `release()`.
abbrev pub freed : State → State
freed s = record s { budget = (release true s.budget).1 }

abbrev pub free : {A : Type 0} → Reply A → Reply A
free (done a s) = done a (freed s)
free (failed e s) = failed e (freed s)

abbrev pub over : Option ℕ → ℕ → Bool
over none n = false
over (some d) n = ltb n d

abbrev pub declared_or_max : Option ℕ → ℕ
declared_or_max none = max_safe
declared_or_max (some d) = d

module _ (w : World) where
  -- The call of the fetcher.
  unfoldable pub ask : Text → FetchLimits → Step (List ℕ)
  ask hash limits s =
      let r = w.fetch hash limits s.budget s.tick in
      of_result fetch_error r.result (record s { budget = r.budget; tick = r.tick })

  -- The `try` block of `#fetch`.
  unfoldable pub transfer : Text → Option ℕ → ℕ → Step (List ℕ)
  transfer hash declared ceiling s =
      let b = s.budget in
      let most =
        min (min b.limits.max_blob_transfer_bytes (remaining_transfer b))
          (min ceiling (declared_or_max declared)) in
      (ensure (leb 1 most) (spent transfer_exceeded)
          >> ask hash (record { max_transfer = most; declared = declared }))
        s

  -- `#fetch`.
  unfoldable pub fetch_blob : Text → Option ℕ → ℕ → Step (List ℕ)
  fetch_blob hash declared ceiling s =
      (ensure (not (over declared s.budget.limits.max_blob_transfer_bytes))
            (spent transfer_exceeded)
          >> (spend w.clock acquire >> (λ t. free (transfer hash declared ceiling t))))
        s

  -- The loader of `#manifest`.
  unfoldable pub load : Text → Step Validated
  load hash = do
    wire ← fetch_blob hash none (w.limits).max_wire_bytes
    of_result invalid (decode_validated w.codec wire w.limits)

  abbrev pub recalled : Option (Result Error Validated) → Step Validated → Step Validated
  recalled none m = m
  recalled (some r) m = of_result (λ e. e) r

  -- The manifest cache with its loader, or the loader alone.
  unfoldable pub obtain : Text → Step Validated
  obtain hash s = recalled (w.recall hash s.tick) (load hash) s

  unfoldable pub remember : Text → Manifest → Step (Unit {0})
  remember hash m s = done tt (record s { manifests = (hash, m) ∷ s.manifests })

  -- `#manifest` of a hash that is not in the map.
  unfoldable pub load_manifest : Text → Step Manifest
  load_manifest hash s =
      (do
        _ ← spend w.clock (λ now. visit now hash)
        v ← obtain hash
        spend w.clock (λ now. debit_decoded now v.decoded_bytes)
        remember hash v.manifest
        pure v.manifest)
        s

  abbrev pub cached_or : Option Manifest → Step Manifest → Step Manifest
  cached_or none m = m
  cached_or (some x) m = pure x

  -- `#manifest`.
  unfoldable pub manifest_of : Text → Step Manifest
  manifest_of hash s = cached_or (lookup hash s.manifests) (load_manifest hash) s
