-- ===== src/Writer/Roots.antt =====
-- src/hashtree/writer.ts, `collapse` of a directory, and src/hashtree/reader.ts, `resolve` of its root.
use nixstr_cache.Prelude.{
  ℕ, zero, suc, ◌≤◌, ◌<◌, ◌≡◌, refl, sym, ap, subst, Option, some, List, [], ◌∷◌, length, Text,
  arith, inl, inr,
}
use nixstr_cache.Prelude.Result.{Result, ok, >>=-eq-ok}
use nixstr_cache.Nhash.{hex}
use nixstr_cache.Manifest.{Manifest, Kind, directory, fanout, Link}
use nixstr_cache.Writer.{
  Blob, Built, State, Limits, Platform, Target, a_directory, manifest_kind, type_of,
  persist_manifest, finish, collapse,
}
use nixstr_cache.Writer.Laws.{HasAll, collapse-turn, persist_manifest-eq-ok}
use nixstr_cache.Resolver.Step.{Error as ResolverError, value}
use nixstr_cache.Resolver.Fetch.{World}
use nixstr_cache.Resolver.Fetches.{tree_of, IsAuthentic}
use nixstr_cache.Resolver.Runs.{Post}
use nixstr_cache.Budget.{Budget}
use nixstr_cache.Resolver.Walk.{Method, Resolved, segments_of, resolve}
use nixstr_cache.Resolver.Trees.{Leads, ends}
use nixstr_cache.Resolver.Integrity.{Answers, LeadsFrom, MissesFrom}
use nixstr_cache.Resolver.Answers.{resolve-IsResolved}

-- A root that the tree has as a manifest of a kind.
pub record IsRoot (tree : Text → Option Manifest) (kind : Kind) (b : Built) : Type 0 where
  pub type : b.type ≡ type_of kind
  pub manifest : Manifest
  pub found : tree (hex (b.blob).hash) ≡ some manifest
  pub kind_is : manifest.kind ≡ kind

module _ (p : Platform) (limits : Limits) (tree : Text → Option Manifest) where
  finish-IsRoot :
      (kind : Target) (level : ℕ) (ls : List Link) (s : State) {b : Built} {t : State}
      → finish p limits kind level ls s ≡ ok (b, t)
      → HasAll p tree t.manifests
      → IsRoot tree (manifest_kind kind level) b
  unfolding finish
  finish-IsRoot kind level ls s {b} {t} h known =
      let m : Manifest = record { kind = manifest_kind kind level; links = ls } in
      let ((x, k, u), e, last) = >>=-eq-ok (persist_manifest p limits m s) _ h in
      let (d, _, z) = persist_manifest-eq-ok p limits m s e in
      let f : t ≡ u = ground (arith, last) in
      let g : HasAll p tree (m ∷ s.manifests) =
        subst (HasAll p tree) z (subst (λ (v : State). HasAll p tree v.manifests) f known) in
      let q : x ≡ b.blob = ground (arith, last) in
      record {
        type = ground (arith, last);
        manifest = m;
        found =
            subst (λ (y : Blob). tree (hex y.hash) ≡ some m) q
              (subst (λ (v : List ℕ). tree (hex v) ≡ some m) (sym d) g.0);
        kind_is = refl;
      }

  -- Above the first level a directory ends in a fanout.
  fanned-IsRoot :
      (fuel level : ℕ) (ls : List Link) (s : State) {b : Built} {t : State}
      → collapse p limits fuel a_directory (suc level) ls s ≡ ok (b, t)
      → HasAll p tree t.manifests
      → IsRoot tree fanout b
  unfolding collapse
  fanned-IsRoot zero level ls s h known = cc
  fanned-IsRoot (suc fuel) level ls s h known =
      elim (collapse-turn p limits fuel a_directory (suc level) ls s h) [
        | inl (_, e) ↦ finish-IsRoot a_directory (suc level) ls s e known
        | inr (next, u, e, k, _) ↦ fanned-IsRoot fuel (suc level) next u k known
      ]

  -- Where the tree holds every manifest that was persisted, a directory is built as a manifest of type
  -- directory if its links fit into one manifest, and as a fanout if they do not.
  pub collapse-IsRoot :
      (fuel : ℕ) (ls : List Link) (s : State) {b : Built} {t : State}
      → collapse p limits fuel a_directory 0 ls s ≡ ok (b, t)
      → HasAll p tree t.manifests
      → (length ls ≤ limits.max_links → IsRoot tree directory b)
        × (limits.max_links < length ls → IsRoot tree fanout b)
  unfolding collapse
  collapse-IsRoot zero ls s h known = cc
  collapse-IsRoot (suc fuel) ls s h known =
      elim (collapse-turn p limits fuel a_directory 0 ls s h) [
        | inl (few, e) ↦ (
          λ _. finish-IsRoot a_directory 0 ls s e known,
          λ many. absurd (omega (arith, few, many)),
        )
        | inr (next, u, e, k, many) ↦
            (λ few. absurd (omega (arith, few, many)), λ _. fanned-IsRoot fuel 0 next u k known)
      ]

-- Nothing leads anywhere from a fanout where a directory is expected.
Leads-fanout :
    (tree : Text → Option Manifest) {h segment : Text} {rest : List Text} {l : Link} (m : Manifest)
    → Leads tree h directory segment rest l
    → tree h ≡ some m
    → m.kind ≡ fanout
    → ⊥
Leads-fanout tree m (ends {m = n} e k c) f j =
    let q : n ≡ m = cc in let r : n.kind ≡ m.kind = ap (λ (x : Manifest). x.kind) q in cc
Leads-fanout tree m (Leads.enters {m = n} e k c b p) f j =
    let q : n ≡ m = cc in let r : n.kind ≡ m.kind = ap (λ (x : Manifest). x.kind) q in cc

LeadsFrom-fanout :
    (tree : Text → Option Manifest) (root : Text) (ss : List Text) (l : Link) (m : Manifest)
    → LeadsFrom tree root ss l
    → tree root ≡ some m
    → m.kind ≡ fanout
    → ⊥
LeadsFrom-fanout tree root [] l m p e k = p
LeadsFrom-fanout tree root (s ∷ ss) l m p e k = Leads-fanout tree m p e k

-- A root directory with more entries than a manifest may have links cannot be read back: where each
-- hash has one content, the fetcher and the manifest cache are authentic, and the tree of the reader
-- holds every manifest that the writer persisted, no path resolves from the root that was built.
pub resolve-collapse :
    (p : Platform) (limits : Limits) (w : World) (content : Text → List ℕ) (path : Text)
    (method : Method) (budget : Budget) (tick fuel : ℕ) (ls : List Link) (s : State) {b : Built}
    {t : State}
    → IsAuthentic w content
    → collapse p limits fuel a_directory 0 ls s ≡ ok (b, t)
    → HasAll p (tree_of w content) t.manifests
    → limits.max_links < length ls
    → ¬ ((r : Resolved) × (value (resolve w (hex (b.blob).hash) path method budget tick) ≡ ok r))
resolve-collapse p limits w content path method budget tick fuel ls s {b} auth h known many (r, e) =
    let root = (collapse-IsRoot p limits (tree_of w content) fuel ls s h known).1 many in
    let g = resolve-IsResolved w content (hex (b.blob).hash) path method budget tick auth in
    let a = subst post e g.value in
    LeadsFrom-fanout (tree_of w content) (hex (b.blob).hash) (segments_of path) a.link root.manifest
      a.leads root.found root.kind_is
  where
    post : Result ResolverError Resolved → Type 0
    post =
        Post (Answers (tree_of w content) content (hex (b.blob).hash) (segments_of path) method)
          (MissesFrom (tree_of w content) (hex (b.blob).hash) (segments_of path))
