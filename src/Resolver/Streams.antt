-- ===== src/Resolver/Streams.antt =====
-- src/hashtree/reader.ts: the bytes of a file's stream.
use nixstr_cache.Prelude.{
  ℕ, ◌+◌, ◌≡◌, refl, ap, ap₂, ◌∙◌, some, List, [], ◌∷◌, ◌++◌, leb, ◌==◌, ==_iff, map, length,
  length-append, sum_of, Text, arith,
}
use nixstr_cache.Budget
use nixstr_cache.Budget.{Budget, debit_output, ensure_output_available}
use nixstr_cache.Resolver.Step.{changed_size, exceeded_size, Step, ◌>>=◌, ◌>>◌, pure, spend}
use nixstr_cache.Resolver.Fetch.{World, fetch_blob}
use nixstr_cache.Resolver.Plan.{Chunk}
use nixstr_cache.Resolver.Stream.{joined, emit, raw_stream, file_stream}
use nixstr_cache.Resolver.Runs.{
  Runs, Fair, Runs-pure, Runs-guard, Runs-then, Runs-spend, Runs-weaken,
}
use nixstr_cache.Resolver.Fetches.{tree_of, IsAuthentic, fetch_blob-Runs}

debit_output-Fair : (now n : ℕ) (b : Budget) → Fair b (λ _. Unit {0}) (debit_output now n b)
unfolding debit_output ensure_output_available
debit_output-Fair now n b = ground arith

-- The bytes that chunks stand for.
abbrev pub bytes_of : (Text → List ℕ) → List Chunk → List ℕ
bytes_of content cs = joined (map (λ (c : Chunk). content c.hash) cs)

-- The reads of a blob make up the blob.
abbrev pub IsWhole : (List ℕ → List (List ℕ)) → Type 0
IsWhole reads = (b : List ℕ) → joined (reads b) ≡ b

module _ (w : World) (content : Text → List ℕ) (auth : IsAuthentic w content)
    (limits : Budget.Limits) (reads : List ℕ → List (List ℕ)) (sound : IsWhole reads) where
  emit-Runs :
      (expected emitted : ℕ) (xs : List (List ℕ))
      → Runs limits
          (tree_of w content)
          (λ out. (out ≡ joined xs) × (emitted + length out ≡ expected))
          ⊥
          (emit w reads expected emitted xs)
  unfolding emit
  emit-Runs expected emitted [] =
      Runs-guard limits (tree_of w content) (λ out. (out ≡ []) × (emitted + length out ≡ expected))
        ⊥ (emitted == expected) changed_size (pure []) tt
        (λ e.
          Runs-pure limits (tree_of w content)
            (λ out. (out ≡ []) × (emitted + length out ≡ expected)) ⊥ []
            (refl, omega (arith, (==_iff emitted expected).0 e)))
  emit-Runs expected emitted (x ∷ xs) =
      Runs-guard limits (tree_of w content) goal ⊥ (leb (emitted + length x) expected) exceeded_size
        debited tt
        (λ _.
          Runs-then limits (tree_of w content) (λ _. Unit {0}) goal ⊥
            (spend w.clock (λ now. debit_output now (length x))) (λ _. rest)
            (Runs-spend limits (tree_of w content) (λ _. Unit {0}) ⊥ w.clock
              (λ now. debit_output now (length x)) (λ now b _. debit_output-Fair now (length x) b))
            (λ _ _.
              Runs-then limits (tree_of w content)
                (λ out. (out ≡ joined xs) × (emitted + length x + length out ≡ expected)) goal ⊥
                (emit w reads expected (emitted + length x) xs) (λ out. pure (x ++ out))
                (emit-Runs expected (emitted + length x) xs)
                (λ out (e, f).
                  Runs-pure limits (tree_of w content) goal ⊥ (x ++ out)
                    (ap (λ (y : List ℕ). x ++ y) e, omega (arith, f, length-append x out)))))
    where
      goal : List ℕ → Type 0
      goal out = (out ≡ x ++ joined xs) × (emitted + length out ≡ expected)

      rest : Step (List ℕ)
      rest = emit w reads expected (emitted + length x) xs >>= (λ out. pure (x ++ out))

      debited : Step (List ℕ)
      debited = spend w.clock (λ now. debit_output now (length x)) >> rest

  pub raw_stream-Runs :
      (hash : Text) (size : ℕ)
      → Runs limits
          (tree_of w content)
          (λ out. (out ≡ content hash) × (length out ≡ size))
          ⊥
          (raw_stream w reads hash size)
  unfolding raw_stream
  raw_stream-Runs hash size s v =
      Runs-then limits (tree_of w content) (λ b. b ≡ content hash)
        (λ out. (out ≡ content hash) × (length out ≡ size)) ⊥
        (fetch_blob w hash (some size) s.budget.limits.max_blob_transfer_bytes)
        (λ b. emit w reads size 0 (reads b))
        (fetch_blob-Runs w content auth limits hash (some size)
          s.budget.limits.max_blob_transfer_bytes)
        (λ b e.
          Runs-weaken limits (tree_of w content)
            (λ out. (out ≡ joined (reads b)) × (0 + length out ≡ size))
            (λ out. (out ≡ content hash) × (length out ≡ size)) ⊥ ⊥ (emit w reads size 0 (reads b))
            (λ out (f, n). (f ∙ sound b ∙ e, omega (arith, n))) (λ x. x)
            (emit-Runs size 0 (reads b)))
        s v

  -- The stream of some chunks is the bytes that they stand for, as many as their sizes say.
  pub file_stream-Runs :
      (cs : List Chunk)
      → Runs limits
          (tree_of w content)
          (λ out. (out ≡ bytes_of content cs) × (length out ≡ sum_of (λ (c : Chunk). c.size) cs))
          ⊥
          (file_stream w reads cs)
  unfolding file_stream
  file_stream-Runs [] =
      Runs-pure limits (tree_of w content) (λ out. (out ≡ []) × (length out ≡ 0)) ⊥ [] (refl, refl)
  file_stream-Runs (c ∷ cs) =
      Runs-then limits (tree_of w content) (λ out. (out ≡ content c.hash) × (length out ≡ c.size))
        goal ⊥ (raw_stream w reads c.hash c.size)
        (λ x. file_stream w reads cs >>= (λ rest. pure (x ++ rest))) (raw_stream-Runs c.hash c.size)
        (λ x (e, n).
          Runs-then limits (tree_of w content)
            (λ out. (out ≡ bytes_of content cs) × (length out ≡ sum_of (λ (c : Chunk). c.size) cs))
            goal ⊥ (file_stream w reads cs) (λ rest. pure (x ++ rest)) (file_stream-Runs cs)
            (λ rest (f, k).
              Runs-pure limits (tree_of w content) goal ⊥ (x ++ rest)
                (ap₂ (λ (y z : List ℕ). y ++ z) e f, omega (arith, n, k, length-append x rest))))
    where
      goal : List ℕ → Type 0
      goal out =
          (out ≡ content c.hash ++ bytes_of content cs)
          × (length out ≡ c.size + sum_of (λ (d : Chunk). d.size) cs)
