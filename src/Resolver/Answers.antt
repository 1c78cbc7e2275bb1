-- ===== src/Resolver/Answers.antt =====
-- src/hashtree/reader.ts, `resolve`: one request, and two requests compared.
use nixstr_cache.Prelude.{ℕ, ◌≡◌, refl, sym, ap, subst, ◌∙◌, Option, List, [], ◌∷◌, Text, arith}
use nixstr_cache.Prelude.Result.{Result, ok, err}
use nixstr_cache.Budget.{Budget}
use nixstr_cache.Manifest.{Manifest, Validated, Link}
use nixstr_cache.Resolver.Step.{Error, absent, Reply, after, value}
use nixstr_cache.Resolver.Fetch.{World, FetchLimits, Fetched}
use nixstr_cache.Resolver.Walk.{
  Method, get, head, Body, whole, chunked, Resolved, segments_of, resolve,
}
use nixstr_cache.Resolver.Runs.{Keeps, Post}
use nixstr_cache.Resolver.Fetches.{tree_of, IsAuthentic}
use nixstr_cache.Resolver.Trees.{Parts, Leads-unique, Leads-Misses, Parts-unique}
use nixstr_cache.Resolver.Integrity.{
  Opens, raw_head, raw_get, file_head, file_get, Describes, LeadsFrom, MissesFrom, Answers,
  resolve_segments-Runs,
}

-- The outcome of a request: the budget only spends, every slot is given back, and what is returned
-- or found absent is what the tree says; the fuel is never used up.
pub record IsResolved (w : World) (content : Text → List ℕ) (root path : Text) (method : Method)
    (b : Budget) (r : Reply Resolved) : Type 0 where
  pub keeps : Keeps b (after r).budget
  pub value :
      Post
        (Answers (tree_of w content) content root (segments_of path) method)
        (MissesFrom (tree_of w content) root (segments_of path))
        (value r)

-- Where each hash has one content, and the fetcher and the manifest cache are authentic, a request
-- never gives back what it spent and leaves every slot free that was free. What it returns describes
-- the link to which the path leads from the root in the tree of manifests: its hash, its size, its
-- type, and for GET the bytes of its blob or the chunks of its file, as many bytes as its size. When
-- it finds the path absent, the path leads nowhere in that tree. The fuel of the model never ends.
pub resolve-IsResolved :
    (w : World) (content : Text → List ℕ) (root path : Text) (method : Method) (b : Budget)
    (tick : ℕ)
    → IsAuthentic w content
    → IsResolved w content root path method b (resolve w root path method b tick)
unfolding resolve
resolve-IsResolved w content root path method b tick auth =
    let g =
      resolve_segments-Runs w content auth b.limits root (segments_of path) method
        (record { budget = b; manifests = []; tick = tick })
        (record { limits = refl; known = tt }) in
    record { keeps = g.keeps; value = g.value }

Opens-unique :
    (tree : Text → Option Manifest) (content : Text → List ℕ) (l : Link) (method : Method)
    {b b' : Body}
    → Opens tree content l method b
    → Opens tree content l method b'
    → b ≡ b'
Opens-unique tree content l head (raw_head t) (raw_head t') = refl
Opens-unique tree content l head (raw_head t) (file_head t') = refl
Opens-unique tree content l head (file_head t) (raw_head t') = refl
Opens-unique tree content l head (file_head t) (file_head t') = refl
Opens-unique tree content l get (raw_get t e) (raw_get t' e') = ap whole (e ∙ sym e')
Opens-unique tree content l get (raw_get t e) (file_get t' _ _ _) = let q = sym t ∙ t' in cc
Opens-unique tree content l get (file_get t _ _ _) (raw_get t' _) = let q = sym t ∙ t' in cc
Opens-unique tree content l get (file_get {m = m} {cs = cs} t e _ p)
      (file_get {m = n} {cs = ds} t' e' _ p') =
    let q : n ≡ m = cc in
    ap chunked (Parts-unique tree p (subst (λ (x : Manifest). Parts tree x.links l.size ds) q p')).1

Describes-unique :
    (tree : Text → Option Manifest) (content : Text → List ℕ) (l : Link) (method : Method)
    (r r' : Resolved)
    → Describes tree content method l r
    → Describes tree content method l r'
    → r ≡ r'
Describes-unique tree content l method r r' d d' =
    let e = Opens-unique tree content l method d.opens d'.opens in
    ground (arith, d.hash, d'.hash, d.size, d'.size, d.type, d'.type, e)

LeadsFrom-unique :
    (tree : Text → Option Manifest) (root : Text) (ss : List Text) (l l' : Link)
    → LeadsFrom tree root ss l
    → LeadsFrom tree root ss l'
    → l ≡ l'
LeadsFrom-unique tree root [] l l' p p' = absurd p
LeadsFrom-unique tree root (s ∷ ss) l l' p p' = Leads-unique tree p p'

LeadsFrom-MissesFrom :
    (tree : Text → Option Manifest) (root : Text) (ss : List Text) (l : Link)
    → LeadsFrom tree root ss l
    → MissesFrom tree root ss
    → ⊥
LeadsFrom-MissesFrom tree root [] l p q = p
LeadsFrom-MissesFrom tree root (s ∷ ss) l p q = Leads-Misses tree p q

Answers-unique :
    (tree : Text → Option Manifest) (content : Text → List ℕ) (root : Text) (ss : List Text)
    (method : Method) (r r' : Resolved)
    → Answers tree content root ss method r
    → Answers tree content root ss method r'
    → r ≡ r'
Answers-unique tree content root ss method r r' a a' =
    let e = LeadsFrom-unique tree root ss a'.link a.link a'.leads a.leads in
    Describes-unique tree content a.link method r r' a.describes
      (subst (λ (l : Link). Describes tree content method l r') e a'.describes)

-- What answers a request besides its root and path.
pub record Service : Type 0 where
  pub clock : ℕ → ℕ
  pub fetch : Text → FetchLimits → Budget → ℕ → Fetched
  pub recall : Text → ℕ → Option (Result Error Validated)

abbrev pub served_by : World → Service → World
served_by w x = record w { clock = x.clock; fetch = x.fetch; recall = x.recall }

-- Two requests for one path of one root, served by different authentic fetchers, manifest caches and
-- clocks, under different budgets, return the same result when both return one; and when one of
-- them returns a result, the other does not find the path absent.
pub resolve_agree :
    (w : World) (x : Service) (content : Text → List ℕ) (root path : Text) (method : Method)
    (b b' : Budget) (tick tick' : ℕ) {r : Resolved}
    → IsAuthentic w content
    → IsAuthentic (served_by w x) content
    → value (resolve w root path method b tick) ≡ ok r
    → ((r' : Resolved) → value (resolve (served_by w x) root path method b' tick') ≡ ok r' → r ≡ r')
      × ¬ (value (resolve (served_by w x) root path method b' tick') ≡ err absent)
unfolding tree_of
resolve_agree w x content root path method b b' tick tick' {r} auth auth' e =
    let g = resolve-IsResolved w content root path method b tick auth in
    let g' = resolve-IsResolved (served_by w x) content root path method b' tick' auth' in
    let a = subst post e g.value in
    (
      λ r' e'.
          Answers-unique (tree_of w content) content root (segments_of path) method r r' a
            (subst post e' g'.value),
      λ e'.
          LeadsFrom-MissesFrom (tree_of w content) root (segments_of path) a.link a.leads
            (subst post e' g'.value),
    )
  where
    post : Result Error Resolved → Type 0
    post =
        Post (Answers (tree_of w content) content root (segments_of path) method)
          (MissesFrom (tree_of w content) root (segments_of path))
