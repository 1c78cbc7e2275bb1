-- ===== src/Resolver/Loads.antt =====
-- src/hashtree/reader.ts, `#manifest`: the manifests that it returns are those of the tree.
use nixstr_cache.Prelude.{
  ℕ, ◌≡◌, refl, Option, none, some, List, [], ◌∷◌, All, Text, text_eq_iff, arith, lookup,
}
use nixstr_cache.Prelude.Result.{Result, ok, err}
use nixstr_cache.Budget
use nixstr_cache.Budget.{
  Budget, Outcome, acquire, release, visit, debit_decoded, debit_links, check_depth,
  ensure_output_available, transfer_exceeded, remaining_transfer, max_safe,
}
use nixstr_cache.Manifest
use nixstr_cache.Manifest.{Manifest, Validated}
use nixstr_cache.Manifest.Rules.{decode_validated}
use nixstr_cache.Resolver.Step.{Error, invalid, Step, ◌>>=◌, ◌>>◌, pure, of_result, spend}
use nixstr_cache.Resolver.Fetch.{
  World, fetch_blob, load, recalled, obtain, remember, cached_or, load_manifest, manifest_of,
}
use nixstr_cache.Resolver.Runs.{Keeps-refl, Good, Runs, Runs-then, Runs-spend}
use nixstr_cache.Resolver.Fetches.{
  tree_of, IsAuthentic, fetch_blob-Runs, visit-Fair, debit_decoded-Fair,
}

module _ (w : World) (content : Text → List ℕ) (auth : IsAuthentic w content)
    (limits : Budget.Limits) where
  -- What a hash decodes to.
  abbrev Decodes : Text → Validated → Type 0
  Decodes hash v = decode_validated w.codec (content hash) w.limits ≡ ok v

  decoded-Runs :
      (hash : Text)
      → Runs limits
          (tree_of w content)
          (Decodes hash)
          ⊥
          (of_result invalid (decode_validated w.codec (content hash) w.limits))
  decoded-Runs hash s v = of (decode_validated w.codec (content hash) w.limits) refl
    where
      of :
          (r : Result Manifest.Error Validated)
          → decode_validated w.codec (content hash) w.limits ≡ r
          → Good limits (tree_of w content) (Decodes hash) ⊥ s (of_result invalid r s)
      of (ok x) e = record { keeps = Keeps-refl s.budget; request = v; value = e }
      of (err x) e = record { keeps = Keeps-refl s.budget; request = v; value = tt }

  load-Runs : (hash : Text) → Runs limits (tree_of w content) (Decodes hash) ⊥ (load w hash)
  unfolding load
  load-Runs hash =
      Runs-then limits (tree_of w content) (λ x. x ≡ content hash) (Decodes hash) ⊥
        (fetch_blob w hash none (w.limits).max_wire_bytes)
        (λ wire. of_result invalid (decode_validated w.codec wire w.limits))
        (fetch_blob-Runs w content auth limits hash none (w.limits).max_wire_bytes)
        (λ wire e. rw e (decoded-Runs hash))

  obtain-Runs : (hash : Text) → Runs limits (tree_of w content) (Decodes hash) ⊥ (obtain w hash)
  unfolding obtain
  obtain-Runs hash s v = of (w.recall hash s.tick) refl
    where
      of :
          (o : Option (Result Error Validated))
          → w.recall hash s.tick ≡ o
          → Good limits (tree_of w content) (Decodes hash) ⊥ s (recalled w o (load w hash) s)
      of none e = load-Runs hash s v
      of (some (ok x)) e = record {
        keeps = Keeps-refl s.budget;
        request = v;
        value = auth.recalls hash s.tick e;
      }
      of (some (err x)) e = record {
        keeps = Keeps-refl s.budget;
        request = v;
        value = auth.refuses hash s.tick e;
      }

  abbrev IsTree : Text → Manifest → Type 0
  IsTree hash m = tree_of w content hash ≡ some m

  remembered-Runs :
      (hash : Text) (m : Manifest)
      → IsTree hash m
      → Runs limits (tree_of w content) (IsTree hash) ⊥ (remember w hash m >> pure m)
  unfolding remember
  remembered-Runs hash m h s v = record {
    keeps = Keeps-refl s.budget;
    request = record { limits = v.limits; known = (h, v.known) };
    value = h;
  }

  load_manifest-Runs :
      (hash : Text) → Runs limits (tree_of w content) (IsTree hash) ⊥ (load_manifest w hash)
  unfolding load_manifest tree_of
  load_manifest-Runs hash s v =
      Runs-then limits (tree_of w content) (λ _. Unit {0}) (IsTree hash) ⊥
        (spend w.clock (λ now. visit now hash)) (λ _. obtain w hash >>= (λ x. debited x))
        (Runs-spend limits (tree_of w content) (λ _. Unit {0}) ⊥ w.clock (λ now. visit now hash)
          (λ now b _. visit-Fair now hash b))
        (λ _ _.
          Runs-then limits (tree_of w content) (Decodes hash) (IsTree hash) ⊥ (obtain w hash)
            (λ x. debited x) (obtain-Runs hash)
            (λ x e.
              Runs-then limits (tree_of w content) (λ _. Unit {0}) (IsTree hash) ⊥
                (spend w.clock (λ now. debit_decoded now x.decoded_bytes))
                (λ _. remember w hash x.manifest >> pure x.manifest)
                (Runs-spend limits (tree_of w content) (λ _. Unit {0}) ⊥ w.clock
                  (λ now. debit_decoded now x.decoded_bytes)
                  (λ now b _. debit_decoded-Fair now x.decoded_bytes b))
                (λ _ _. remembered-Runs hash x.manifest (rw e refl))))
        s v
    where
      debited : Validated → Step Manifest
      debited x =
          spend w.clock (λ now. debit_decoded now x.decoded_bytes)
          >> (remember w hash x.manifest >> pure x.manifest)

  lookup-known :
      (hash : Text) (ms : List (Text × Manifest)) (m : Manifest)
      → All (λ e. tree_of w content e.0 ≡ some (e.1)) ms
      → lookup hash ms ≡ some m
      → IsTree hash m
  unfolding lookup
  lookup-known hash [] m h e = cc
  lookup-known hash ((k, x) ∷ ms) m (h, hs) e =
      ground (arith, text_eq_iff k hash, lookup-known hash ms m hs)

  pub manifest_of-Runs :
      (hash : Text) → Runs limits (tree_of w content) (IsTree hash) ⊥ (manifest_of w hash)
  unfolding manifest_of
  manifest_of-Runs hash s v = of (lookup hash s.manifests) refl
    where
      of :
          (o : Option Manifest)
          → lookup hash s.manifests ≡ o
          → Good limits
              (tree_of w content)
              (IsTree hash)
              ⊥
              s
              (cached_or w o (load_manifest w hash) s)
      of none e = load_manifest-Runs hash s v
      of (some x) e = record {
        keeps = Keeps-refl s.budget;
        request = v;
        value = lookup-known hash s.manifests x v.known e;
      }
