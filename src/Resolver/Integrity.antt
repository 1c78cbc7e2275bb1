-- ===== src/Resolver/Integrity.antt =====
-- src/hashtree/reader.ts, `resolve`: what it answers, whatever the servers and the cache do.
use nixstr_cache.Prelude.{
  ℕ, suc, ◌≡◌, inl, refl, sym, subst, Option, some, List, [], ◌∷◌, Text, arith,
}
use nixstr_cache.Nhash.{hex}
use nixstr_cache.Budget
use nixstr_cache.Budget.{Budget}
use nixstr_cache.Manifest.{
  Manifest, file, directory, Link, LinkType, raw_link, file_link, directory_link, fanout_link,
}
use nixstr_cache.Resolver.Step.{
  Error, absent, out_of_fuel, unavailable, is_directory, State, Reply, done, failed, pure,
}
use nixstr_cache.Resolver.Fetch.{World, fetch_blob}
use nixstr_cache.Resolver.Plan.{Chunk, FilePlan, file_plan}
use nixstr_cache.Resolver.Walk.{
  Method, get, head, Body, no_body, whole, chunked, Resolved, walk, described, body_of, open_link,
  blamed, caught, resolve_segments,
}
use nixstr_cache.Resolver.Runs.{
  Explained, Good, Runs, Runs-pure, Runs-throw, Runs-then, Runs-weaken,
}
use nixstr_cache.Resolver.Fetches.{tree_of, IsAuthentic, fetch_blob-Runs}
use nixstr_cache.Resolver.Trees.{Leads, Misses, Parts}
use nixstr_cache.Resolver.Files.{IsFilePlan, file_plan-Runs}
use nixstr_cache.Resolver.Paths.{walk-Runs}

-- The body of a link: the bytes of a blob, or the chunks of a file, which add up to its size.
pub data Opens (tree : Text → Option Manifest) (content : Text → List ℕ) (l : Link)
    : Method → Body → Type 0 where
  raw_head : l.type ≡ raw_link → Opens tree content l head no_body
  raw_get :
      {b : List ℕ}
      → l.type ≡ raw_link
      → b ≡ content (hex l.hash)
      → Opens tree content l get (whole b)
  file_head : l.type ≡ file_link → Opens tree content l head no_body
  file_get :
      {m : Manifest} {cs : List Chunk}
      → l.type ≡ file_link
      → tree (hex l.hash) ≡ some m
      → m.kind ≡ file
      → Parts tree m.links l.size cs
      → Opens tree content l get (chunked cs)

-- What describes a link.
pub record Describes (tree : Text → Option Manifest) (content : Text → List ℕ) (method : Method)
    (l : Link) (r : Resolved) : Type 0 where
  pub hash : r.hash ≡ hex l.hash
  pub size : r.size ≡ l.size
  pub type : r.type ≡ l.type
  pub opens : Opens tree content l method r.body

abbrev pub LeadsFrom : (Text → Option Manifest) → Text → List Text → Link → Type 0
LeadsFrom tree root [] l = ⊥
LeadsFrom tree root (s ∷ ss) l = Leads tree root directory s ss l

abbrev pub MissesFrom : (Text → Option Manifest) → Text → List Text → Type 0
MissesFrom tree root [] = Unit {0}
MissesFrom tree root (s ∷ ss) = Misses tree root directory s ss

-- The answer of the tree, with the link in between.
pub record Answers (tree : Text → Option Manifest) (content : Text → List ℕ) (root : Text)
    (segments : List Text) (method : Method) (r : Resolved) : Type 0 where
  pub link : Link
  pub leads : LeadsFrom tree root segments link
  pub describes : Describes tree content method link r

blamed-Explained : (X : Type 0) (e : Error) → Explained ⊥ e → Explained X (blamed e)
blamed-Explained X (unavailable []) h = tt
blamed-Explained X (unavailable (o ∷ os)) h = tt
blamed-Explained X absent h = absurd h
blamed-Explained X out_of_fuel h = h
blamed-Explained X _ h = tt

module _ (w : World) (content : Text → List ℕ) (auth : IsAuthentic w content)
    (limits : Budget.Limits) where
  open_link-Runs :
      (method : Method) (t : LinkType) (l : Link)
      → l.type ≡ t
      → Runs limits
          (tree_of w content)
          (Describes (tree_of w content) content method l)
          ⊥
          (open_link w method t l)
  unfolding open_link
  open_link-Runs head raw_link l e =
      Runs-pure limits (tree_of w content) (Describes (tree_of w content) content head l) ⊥
        (described l l.size no_body)
        (record { hash = refl; size = refl; type = refl; opens = raw_head e })
  open_link-Runs get raw_link l e = λ s v.
      Runs-then limits (tree_of w content) (λ b. b ≡ content (hex l.hash))
        (Describes (tree_of w content) content get l) ⊥
        (fetch_blob w (hex l.hash) (some (l.size)) s.budget.limits.max_blob_transfer_bytes)
        (λ b. pure (described l l.size (whole b)))
        (fetch_blob-Runs w content auth limits (hex l.hash) (some (l.size))
          s.budget.limits.max_blob_transfer_bytes)
        (λ b f.
          Runs-pure limits (tree_of w content) (Describes (tree_of w content) content get l) ⊥
            (described l l.size (whole b))
            (record { hash = refl; size = refl; type = refl; opens = raw_get e f }))
        s v
  open_link-Runs method file_link l e =
      Runs-then limits (tree_of w content)
        (λ p. (l.size ≡ p.size) × IsFilePlan (tree_of w content) (hex l.hash) p)
        (Describes (tree_of w content) content method l) ⊥ (file_plan w (hex l.hash) l.size)
        (λ p. pure (described l p.size (body_of method p.chunks)))
        (file_plan-Runs w content auth limits (hex l.hash) l.size)
        (λ p (q, f).
          Runs-pure limits (tree_of w content) (Describes (tree_of w content) content method l) ⊥
            (described l p.size (body_of method p.chunks))
            (record { hash = refl; size = sym q; type = refl; opens = opened method p q f }))
    where
      opened :
          (method : Method) (p : FilePlan)
          → l.size ≡ p.size
          → IsFilePlan (tree_of w content) (hex l.hash) p
          → Opens (tree_of w content) content l method (body_of method p.chunks)
      opened head p q f = file_head e
      opened get p q f = file_get e f.found f.kind (
          subst (λ (n : ℕ). Parts (tree_of w content) (f.manifest).links n p.chunks) (sym q)
            f.parts)
  open_link-Runs method directory_link l e =
      Runs-throw limits (tree_of w content) (Describes (tree_of w content) content method l) ⊥
        is_directory tt
  open_link-Runs method fanout_link l e =
      Runs-throw limits (tree_of w content) (Describes (tree_of w content) content method l) ⊥
        is_directory tt

  caught-Good :
      {A : Type 0} (R : A → Type 0) (X : Type 0) (s : State) (r : Reply A)
      → Good limits (tree_of w content) R ⊥ s r
      → Good limits (tree_of w content) R X s (caught r)
  caught-Good R X s (done a t) g = record { keeps = g.keeps; request = g.request; value = g.value }
  caught-Good R X s (failed e t) g = record {
    keeps = g.keeps;
    request = g.request;
    value = blamed-Explained X e g.value;
  }

  pub resolve_segments-Runs :
      (root : Text) (segments : List Text) (method : Method)
      → Runs limits
          (tree_of w content)
          (Answers (tree_of w content) content root segments method)
          (MissesFrom (tree_of w content) root segments)
          (resolve_segments w root segments method)
  unfolding resolve_segments
  resolve_segments-Runs root [] method =
      Runs-throw limits (tree_of w content) (Answers (tree_of w content) content root [] method)
        (Unit {0}) absent tt
  resolve_segments-Runs root (segment ∷ rest) method = λ s v.
      Runs-then limits (tree_of w content)
        (λ l. Leads (tree_of w content) root directory segment rest l)
        (Answers (tree_of w content) content root (segment ∷ rest) method)
        (Misses (tree_of w content) root directory segment rest)
        (walk w (suc s.budget.limits.max_depth) root directory 1 segment rest)
        (λ l t. caught (open_link w method l.type l t))
        (walk-Runs w content auth limits (suc s.budget.limits.max_depth) root directory 1 segment
          rest (inl refl) (rw v.limits (omega arith)) (omega arith))
        (λ l p t u.
          caught-Good (Answers (tree_of w content) content root (segment ∷ rest) method)
            (Misses (tree_of w content) root directory segment rest) t
            (open_link w method l.type l t)
            (Runs-weaken limits (tree_of w content) (Describes (tree_of w content) content method l)
              (Answers (tree_of w content) content root (segment ∷ rest) method) ⊥ ⊥
              (open_link w method l.type l) (λ r d. record { link = l; leads = p; describes = d })
              (λ x. x) (open_link-Runs method l.type l refl) t u))
        s v
