-- ===== src/Resolver/Stream.antt =====
-- src/hashtree/reader.ts, `#rawStream`, `cleanupStream` and `#fileStream`, read to the end. The reads
-- of a blob that is open are a parameter; what was handed out before an error is left out.
use nixstr_cache.Prelude.{ℕ, ◌+◌, some, List, [], ◌∷◌, ◌++◌, leb, ◌==◌, length, Text}
use nixstr_cache.Budget.{debit_output}
use nixstr_cache.Resolver.Step.{
  changed_size, exceeded_size, is_directory, throw, Step, ◌>>=◌, ◌>>◌, pure, ensure, spend,
}
use nixstr_cache.Resolver.Fetch.{World, fetch_blob}
use nixstr_cache.Resolver.Plan.{Chunk, file_plan}
use nixstr_cache.Manifest.{LinkType, raw_link, file_link, directory_link, fanout_link}

abbrev pub joined : List (List ℕ) → List ℕ
joined [] = []
joined (x ∷ xs) = x ++ joined xs

module _ (w : World) (reads : List ℕ → List (List ℕ)) where
  -- `cleanupStream`, behind the bytes that were emitted.
  unfoldable pub emit : ℕ → ℕ → List (List ℕ) → Step (List ℕ)
  emit expected emitted [] = ensure (emitted == expected) changed_size >> pure []
  emit expected emitted (x ∷ xs) = do
    ensure (leb (emitted + length x) expected) exceeded_size
    spend w.clock (λ now. debit_output now (length x))
    rest ← emit expected (emitted + length x) xs
    pure (x ++ rest)

  -- `#rawStream`.
  unfoldable pub raw_stream : Text → ℕ → Step (List ℕ)
  raw_stream hash size s =
      (fetch_blob w hash (some size) s.budget.limits.max_blob_transfer_bytes
          >>= (λ b. emit size 0 (reads b)))
        s

  -- `#fileStream`.
  unfoldable pub file_stream : List Chunk → Step (List ℕ)
  file_stream [] = pure []
  file_stream (c ∷ cs) = do x ← raw_stream c.hash c.size; rest ← file_stream cs; pure (x ++ rest)

  -- The body of `resolve` for GET, read to the end.
  unfoldable pub body_stream : LinkType → Text → ℕ → Step (List ℕ)
  body_stream raw_link hash size = raw_stream hash size
  body_stream file_link hash size = file_plan w hash size >>= (λ p. file_stream p.chunks)
  body_stream directory_link hash size = throw is_directory
  body_stream fanout_link hash size = throw is_directory
