-- ===== src/Writer/Files.antt =====
-- src/hashtree/writer.ts, `collapse` of a file, and src/hashtree/reader.ts, `#filePlan` of what it built.
use nixstr_cache.Prelude.{
  ℕ, zero, suc, ◌≡◌, refl, sym, subst, ◌∙◌, Option, some, List, [], ◌∷◌, Text, arith, inl, inr,
}
use nixstr_cache.Prelude.Result.{Result, ok, >>=-eq-ok}
use nixstr_cache.Nhash.{hex}
use nixstr_cache.Manifest.{Manifest, file, Link, file_link}
use nixstr_cache.Resolver.Plan.{Chunk}
use nixstr_cache.Resolver.Trees.{Parts, nothing}
use nixstr_cache.Writer.{Built, State, Limits, Platform, a_file, persist_manifest, finish, collapse}
use nixstr_cache.Writer.Laws.{HasAll, collapse-turn, collapse-HasAll, persist_manifest-eq-ok}
use nixstr_cache.Writer.Spelling.{Spelled, logical_size_of-Parts}
use nixstr_cache.Writer.Levels.{next_level-Spelled}
use nixstr_cache.Resolver.Step.{State as Request, Error as ResolverError, value}
use nixstr_cache.Resolver.Fetch.{World}
use nixstr_cache.Resolver.Plan.{FilePlan, file_plan}
use nixstr_cache.Resolver.Trees.{Parts-unique}
use nixstr_cache.Resolver.Fetches.{tree_of, IsAuthentic}
use nixstr_cache.Resolver.Files.{IsFilePlan, file_plan-Runs}
use nixstr_cache.Resolver.Runs.{IsRequest, Post}

-- What was built of a file: its manifest is in the tree and consists of the chunks.
pub record IsBuilt (tree : Text → Option Manifest) (cs : List Chunk) (b : Built) : Type 0 where
  pub type : b.type ≡ file_link
  pub manifest : Manifest
  pub found : tree (hex (b.blob).hash) ≡ some manifest
  pub kind : manifest.kind ≡ file
  pub parts : Parts tree manifest.links b.logical_size cs

module _ (p : Platform) (limits : Limits) (tree : Text → Option Manifest) where
  finish-IsBuilt :
      (level : ℕ) (ls : List Link) (s : State) (cs : List Chunk) {b : Built} {t : State}
      → finish p limits a_file level ls s ≡ ok (b, t)
      → HasAll p tree t.manifests
      → Spelled tree ls cs
      → IsBuilt tree cs b
  unfolding finish
  finish-IsBuilt level ls s cs {b} {t} h known (n, q) =
      let m : Manifest = record { kind = file; links = ls } in
      let ((x, k, u), e, last) = >>=-eq-ok (persist_manifest p limits m s) _ h in
      let (d, y, z) = persist_manifest-eq-ok p limits m s e in
      let f : t ≡ u = ground (arith, last) in
      let g : HasAll p tree (m ∷ s.manifests) =
        subst (HasAll p tree) z (subst (λ (v : State). HasAll p tree v.manifests) f known) in
      let size : n ≡ k = sym (logical_size_of-Parts tree ls 0 y q ∙ omega arith) in
      let built : record { blob = x; logical_size = k; type = file_link; count = 1 } ≡ b =
        ground (arith, last) in
      subst (IsBuilt tree cs) built (record {
        type = refl;
        manifest = m;
        found = subst (λ (v : List ℕ). tree (hex v) ≡ some m) (sym d) g.0;
        kind = refl;
        parts = subst (λ (j : ℕ). Parts tree ls j cs) size q;
      })

  -- Where a tree holds every manifest that was persisted, what is built of links that stand for some
  -- chunks is the manifest of a file that consists of the same chunks, in the same order, and its
  -- logical size is theirs.
  pub collapse-IsBuilt :
      (fuel level : ℕ) (ls : List Link) (s : State) (cs : List Chunk) {b : Built} {t : State}
      → collapse p limits fuel a_file level ls s ≡ ok (b, t)
      → HasAll p tree t.manifests
      → Spelled tree ls cs
      → IsBuilt tree cs b
  unfolding collapse
  collapse-IsBuilt zero level ls s cs h known q = cc
  collapse-IsBuilt (suc fuel) level ls s cs {b} {t} h known q =
      elim (collapse-turn p limits fuel a_file level ls s h) [
        | inl (_, e) ↦ finish-IsBuilt level ls s cs e known q
        | inr (next, u, e, k, _) ↦ collapse-IsBuilt fuel (suc level) next u cs k known (
            next_level-Spelled p limits tree level ls [] [] s [] [] cs e
              (collapse-HasAll p limits tree fuel a_file (suc level) next u k known) (0, nothing)
              (0, nothing) q)
      ]

-- The writer and the reader together: where each hash has one content, the fetcher and the manifest
-- cache of the reader are authentic, and its tree holds every manifest that the writer persisted, the
-- plan that the reader returns for what was built of a file's chunks, of whatever expected size, is
-- those chunks in the same order, for the size that the writer gave, which is the expected one.
pub file_plan-collapse :
    (p : Platform) (limits : Limits) (w : World) (content : Text → List ℕ) (r : Request)
    (fuel expected : ℕ) (ls : List Link) (s : State) (cs : List Chunk) {b : Built} {t : State}
    {plan : FilePlan}
    → IsAuthentic w content
    → IsRequest r.budget.limits (tree_of w content) r
    → collapse p limits fuel a_file 0 ls s ≡ ok (b, t)
    → HasAll p (tree_of w content) t.manifests
    → Spelled (tree_of w content) ls cs
    → value (file_plan w (hex (b.blob).hash) expected r) ≡ ok plan
    → (plan.chunks ≡ cs) × (plan.size ≡ b.logical_size) × (expected ≡ b.logical_size)
file_plan-collapse p limits w content r fuel expected ls s cs {b} {t} {plan} auth v h known q e =
    let built = collapse-IsBuilt p limits (tree_of w content) fuel 0 ls s cs h known q in
    let good = file_plan-Runs w content auth r.budget.limits (hex (b.blob).hash) expected r v in
    let (size, f) = subst post e good.value in
    let same : f.manifest ≡ built.manifest = some_injective (sym f.found ∙ built.found) in
    let (x, y) =
      Parts-unique (tree_of w content)
        (subst (λ (m : Manifest). Parts (tree_of w content) m.links plan.size plan.chunks) same
          f.parts)
        built.parts in
    (y, x, size ∙ x)
  where
    post : Result ResolverError FilePlan → Type 0
    post =
        Post
          (λ (x : FilePlan).
            (expected ≡ x.size) × IsFilePlan (tree_of w content) (hex (b.blob).hash) x)
          ⊥

    some_injective : {m n : Manifest} → Path (Option Manifest) (some m) (some n) → m ≡ n
    some_injective h = cc
