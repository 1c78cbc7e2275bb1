-- ===== src/Writer/ReadBack.antt =====
-- src/hashtree/writer.ts, `buildFile`, and src/hashtree/reader.ts, the stream of what it built.
use nixstr_cache.Prelude.{
  ℕ, ◌≡◌, inl, inr, refl, sym, ap, ap₂, subst, ◌∙◌, Option, some, List, [], ◌∷◌, ◌++◌, map,
  append-nil, length, ◌≤◌, sum_of, Text, arith,
}
use nixstr_cache.Prelude.Result.{Result, ok}
use nixstr_cache.Nhash.{hex}
use nixstr_cache.Budget
use nixstr_cache.Manifest.{Manifest, LinkType}
use nixstr_cache.Resolver.Step.{State as Request, Error as ResolverError, value, ◌>>=◌}
use nixstr_cache.Resolver.Fetch.{World}
use nixstr_cache.Resolver.Plan.{Chunk, file_plan}
use nixstr_cache.Resolver.Stream.{joined, raw_stream, file_stream, body_stream}
use nixstr_cache.Resolver.Streams.{bytes_of, IsWhole, raw_stream-Runs, file_stream-Runs}
use nixstr_cache.Resolver.Trees.{Parts, Parts-unique}
use nixstr_cache.Resolver.Runs.{Runs, IsRequest, Post, Runs-then, Runs-weaken}
use nixstr_cache.Resolver.Fetches.{tree_of, IsAuthentic}
use nixstr_cache.Resolver.Files.{IsFilePlan, file_plan-Runs}
use nixstr_cache.Writer.{Built, State, Limits, Platform}
use nixstr_cache.Writer.Laws.{HasAll}
use nixstr_cache.Writer.Chunks.{build_file}
use nixstr_cache.Writer.Files.{IsBuilt}
use nixstr_cache.Writer.Pieces.{HasBlobs, IsFileOf, chunk_of, build_file-IsFileOf}

bytes_of-pieces :
    (p : Platform) (limits : Limits) (content : Text → List ℕ) (ps : List (List ℕ))
    → HasBlobs p content ps
    → bytes_of content (map (chunk_of p limits) ps) ≡ joined ps
bytes_of-pieces p limits content [] h = refl
bytes_of-pieces p limits content (x ∷ xs) (e, h) =
    ap₂ (λ (y z : List ℕ). y ++ z) e (bytes_of-pieces p limits content xs h)

module _ (p : Platform) (limits : Limits) (w : World) (content : Text → List ℕ)
    (reads : List ℕ → List (List ℕ)) (auth : IsAuthentic w content) (sound : IsWhole reads)
    (given : Budget.Limits) where
  -- What a file that was built as a manifest is read as.
  built_stream-Runs :
      (b : Built) (ps : List (List ℕ)) (expected : ℕ)
      → HasBlobs p content ps
      → IsBuilt (tree_of w content) (map (chunk_of p limits) ps) b
      → Runs given
          (tree_of w content)
          (λ out. out ≡ joined ps)
          ⊥
          (file_plan w (hex (b.blob).hash) expected >>= (λ plan. file_stream w reads plan.chunks))
  built_stream-Runs b ps expected served g =
      Runs-then given (tree_of w content)
        (λ plan. (expected ≡ plan.size) × IsFilePlan (tree_of w content) (hex (b.blob).hash) plan)
        (λ out. out ≡ joined ps) ⊥ (file_plan w (hex (b.blob).hash) expected)
        (λ plan. file_stream w reads plan.chunks)
        (file_plan-Runs w content auth given (hex (b.blob).hash) expected)
        (λ plan (_, k).
          let same : k.manifest ≡ g.manifest = some_injective (sym k.found ∙ g.found) in
          let (_, y) =
            Parts-unique (tree_of w content)
              (subst (λ (m : Manifest). Parts (tree_of w content) m.links plan.size plan.chunks)
                same k.parts)
              g.parts in
          Runs-weaken given (tree_of w content)
            (λ out.
              (out ≡ bytes_of content plan.chunks)
              × (length out ≡ sum_of (λ (c : Chunk). c.size) plan.chunks))
            (λ out. out ≡ joined ps) ⊥ ⊥ (file_stream w reads plan.chunks)
            (λ out (x, _). x ∙ ap (bytes_of content) y ∙ bytes_of-pieces p limits content ps served)
            (λ x. x) (file_stream-Runs w content auth given reads sound plan.chunks))
    where
      some_injective : {m n : Manifest} → Path (Option Manifest) (some m) (some n) → m ≡ n
      some_injective h = cc

  -- What a file that is one blob is read as.
  whole_stream-Runs :
      (b : Built) (ps : List (List ℕ)) (expected : ℕ)
      → length ps ≤ 1
      → HasBlobs p content ps
      → (length ps ≡ 0 → content (hex (p.sha256 [])) ≡ [])
      → (b.blob).hash ≡ p.sha256 (joined ps)
      → Runs given
          (tree_of w content)
          (λ out. out ≡ joined ps)
          ⊥
          (raw_stream w reads (hex (b.blob).hash) expected)
  whole_stream-Runs b ps expected few served empty hashed =
      Runs-weaken given (tree_of w content)
        (λ out. (out ≡ content (hex (b.blob).hash)) × (length out ≡ expected))
        (λ out. out ≡ joined ps) ⊥ ⊥ (raw_stream w reads (hex (b.blob).hash) expected)
        (λ out (x, _). x ∙ ap (λ (h : List ℕ). content (hex h)) hashed ∙ found ps few served empty)
        (λ x. x) (raw_stream-Runs w content auth given reads sound (hex (b.blob).hash) expected)
    where
      found :
          (ps : List (List ℕ))
          → length ps ≤ 1
          → HasBlobs p content ps
          → (length ps ≡ 0 → content (hex (p.sha256 [])) ≡ [])
          → content (hex (p.sha256 (joined ps))) ≡ joined ps
      found [] few served empty = empty refl
      found (x ∷ []) few (e, _) empty =
          subst (λ (y : List ℕ). content (hex (p.sha256 y)) ≡ y) (sym (append-nil x)) e
      found (x ∷ y ∷ ps) few served empty = absurd (omega (arith, few))

-- Writing and reading back: where each hash has one content, which is what the writer persisted
-- under it, the reader's tree holds every manifest that the writer persisted, its fetcher and its
-- manifest cache are authentic, and the reads of a blob make up the blob, the body of the file that
-- was built, read to its end by its hash and type, with whatever expected size, is the bytes of the
-- file.
pub body_stream-build_file :
    (p : Platform) (limits : Limits) (w : World) (content : Text → List ℕ)
    (reads : List ℕ → List (List ℕ)) (r : Request) (bytes : List ℕ) (size expected : ℕ) (s : State)
    {b : Built} {t : State} {out : List ℕ}
    → IsAuthentic w content
    → IsWhole reads
    → IsRequest r.budget.limits (tree_of w content) r
    → build_file p limits bytes size s ≡ ok (b, t)
    → HasAll p (tree_of w content) t.manifests
    → HasBlobs p content t.blobs
    → value (body_stream w reads b.type (hex (b.blob).hash) expected r) ≡ ok out
    → out ≡ bytes
unfolding body_stream
body_stream-build_file p limits w content reads r bytes size expected s {b} {t} {out} auth sound v h
      known held e =
    let (f, _) =
      build_file-IsFileOf p limits (tree_of w content) content bytes size s h known held in
    elim f.stands [
      | inl (few, g) ↦
          let good =
            whole_stream-Runs p limits w content reads auth sound r.budget.limits b f.pieces
              expected few f.served f.empty (g.hash ∙ ap p.sha256 (sym f.whole)) r v in
          read f (typed g.type) good.value
      | inr (_, g) ↦
          let good =
            built_stream-Runs p limits w content reads auth sound r.budget.limits b f.pieces
              expected f.served g r v in
          read f (typed g.type) good.value
    ]
  where
    typed :
        {k : LinkType}
        → b.type ≡ k
        → value (body_stream w reads k (hex (b.blob).hash) expected r) ≡ ok out
    typed q =
        subst
          (λ (k : LinkType). value (body_stream w reads k (hex (b.blob).hash) expected r) ≡ ok out)
          q e

    read :
        (f : IsFileOf p limits (tree_of w content) content bytes b)
        {x : Result ResolverError (List ℕ)}
        → x ≡ ok out
        → Post (λ (o : List ℕ). o ≡ joined f.pieces) ⊥ x
        → out ≡ bytes
    read f e g = subst (Post (λ (o : List ℕ). o ≡ joined f.pieces) ⊥) e g ∙ f.whole
