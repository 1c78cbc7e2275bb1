-- ===== src/Resolver/Paths.antt =====
-- src/hashtree/reader.ts, the loop of `resolve`, against the tree.
use nixstr_cache.Prelude.{
  ℕ, zero, suc, ◌+◌, ◌≤◌, ◌≡◌, ◌⊎◌, inl, inr, refl, true, Option, none, some, List, [], ◌∷◌, length,
  Text, arith,
}
use nixstr_cache.Nhash.{hex}
use nixstr_cache.Budget
use nixstr_cache.Budget.{Budget, check_depth, debit_links}
use nixstr_cache.Manifest.{
  Manifest, Kind, file, directory, fanout, Link, LinkType, raw_link, file_link, directory_link,
  fanout_link,
}
use nixstr_cache.Resolver.Step.{absent, wrong_type, Step, ◌>>=◌, ◌>>◌, pure, ensure, spend}
use nixstr_cache.Resolver.Fetch.{World, manifest_of}
use nixstr_cache.Resolver.Walk.{
  choose, same_kind, found_or, kind_behind, fan_kind, Turn, final, onward, next_turn, follow, round,
  walk,
}
use nixstr_cache.Resolver.Runs.{Runs, Runs-pure, Runs-throw, Runs-guard, Runs-then, Runs-weaken}
use nixstr_cache.Resolver.Fetches.{tree_of, IsAuthentic}
use nixstr_cache.Resolver.Loads.{manifest_of-Runs}
use nixstr_cache.Resolver.Files.{depth-Runs, links-Runs}
use nixstr_cache.Resolver.Trees.{Leads, ends, Misses, lacks, stops}

-- What a round may choose: the link where the path ends, or a manifest from which the rest of the
-- path leads where the whole path leads.
abbrev Chooses : (Text → Option Manifest) → Text → Kind → Text → List Text → Turn → Type 0
Chooses tree h k segment rest (final l) = Leads tree h k segment rest l
Chooses tree h k segment rest (onward h' k' segment' rest') =
    ((k' ≡ directory) ⊎ (k' ≡ fanout))
    × ((l : Link) → Leads tree h' k' segment' rest' l → Leads tree h k segment rest l)
    × (Misses tree h' k' segment' rest' → Misses tree h k segment rest)

same_kind-true : (k j : Kind) → same_kind k j ≡ true → j ≡ k
same_kind-true directory directory h = refl
same_kind-true fanout fanout h = refl
same_kind-true file file h = refl
same_kind-true directory fanout h = cc
same_kind-true directory file h = cc
same_kind-true fanout directory h = cc
same_kind-true fanout file h = cc
same_kind-true file directory h = cc
same_kind-true file fanout h = cc

kind_behind-cases :
    (t : LinkType) {k : Kind} → kind_behind t ≡ some k → (k ≡ directory) ⊎ (k ≡ fanout)
kind_behind-cases directory_link h = inl cc
kind_behind-cases fanout_link h = inr cc
kind_behind-cases raw_link h = cc
kind_behind-cases file_link h = cc

fan_kind-cases : (t : LinkType) → (fan_kind t ≡ directory) ⊎ (fan_kind t ≡ fanout)
fan_kind-cases directory_link = inl refl
fan_kind-cases fanout_link = inr refl
fan_kind-cases raw_link = inl refl
fan_kind-cases file_link = inl refl

module _ (w : World) (content : Text → List ℕ) (auth : IsAuthentic w content)
    (limits : Budget.Limits) where
  Runs-found :
      {A : Type 0} (X : Type 0) (o : Option A)
      → (o ≡ none → X)
      → Runs limits (tree_of w content) (λ a. o ≡ some a) X (found_or o absent)
  Runs-found X none h = Runs-throw limits (tree_of w content) (λ a. none ≡ some a) X absent (h refl)
  Runs-found X (some a) h = Runs-pure limits (tree_of w content) (λ b. some a ≡ some b) X a refl

  -- The turn at a link that a manifest of the expected kind has.
  turn-Runs :
      (h : Text) (k : Kind) (m : Manifest) (l : Link) (segment : Text) (rest : List Text)
      → (k ≡ directory) ⊎ (k ≡ fanout)
      → tree_of w content h ≡ some m
      → m.kind ≡ k
      → choose segment m ≡ some l
      → Runs limits
          (tree_of w content)
          (Chooses (tree_of w content) h k segment rest)
          (Misses (tree_of w content) h k segment rest)
          (next_turn k l segment rest)
  turn-Runs h file m l segment rest (inl e) t j c = cc
  turn-Runs h file m l segment rest (inr e) t j c = cc
  turn-Runs h directory m l segment [] _ t j c =
      Runs-pure limits (tree_of w content) (Chooses (tree_of w content) h directory segment [])
        (Misses (tree_of w content) h directory segment []) (final l) (ends t j c)
  turn-Runs h directory m l segment (next ∷ rest) _ t j c =
      Runs-then limits (tree_of w content) (λ k. kind_behind l.type ≡ some k)
        (Chooses (tree_of w content) h directory segment (next ∷ rest))
        (Misses (tree_of w content) h directory segment (next ∷ rest))
        (found_or (kind_behind l.type) absent) (λ k. pure (onward (hex l.hash) k next rest))
        (Runs-found (Misses (tree_of w content) h directory segment (next ∷ rest))
          (kind_behind l.type) (λ b. stops t j c b))
        (λ k b.
          Runs-pure limits (tree_of w content)
            (Chooses (tree_of w content) h directory segment (next ∷ rest))
            (Misses (tree_of w content) h directory segment (next ∷ rest))
            (onward (hex l.hash) k next rest)
            (
              kind_behind-cases l.type b,
              λ d p. Leads.enters t j c b p,
              λ p. Misses.enters t j c b p,
            ))
  turn-Runs h fanout m l segment rest _ t j c =
      Runs-pure limits (tree_of w content) (Chooses (tree_of w content) h fanout segment rest)
        (Misses (tree_of w content) h fanout segment rest)
        (onward (hex l.hash) (fan_kind l.type) segment rest)
        (fan_kind-cases l.type, λ d p. Leads.crosses t j c p, λ p. Misses.crosses t j c p)

  round-Runs :
      (h : Text) (k : Kind) (depth : ℕ) (segment : Text) (rest : List Text)
      → (k ≡ directory) ⊎ (k ≡ fanout)
      → Runs limits
          (tree_of w content)
          (λ t. (depth ≤ limits.max_depth) × Chooses (tree_of w content) h k segment rest t)
          (Misses (tree_of w content) h k segment rest)
          (round w h k depth segment rest)
  unfolding round
  round-Runs h k depth segment rest kk =
      Runs-then limits (tree_of w content) (λ _. depth ≤ limits.max_depth) goal miss
        (spend w.clock (λ now. check_depth now depth)) (λ _. manifest_of w h >>= (λ m. kinded m))
        (depth-Runs w content auth limits miss depth)
        (λ _ d.
          Runs-then limits (tree_of w content) (λ m. tree_of w content h ≡ some m) goal miss
            (manifest_of w h) (λ m. kinded m)
            (Runs-weaken limits (tree_of w content) (λ m. tree_of w content h ≡ some m)
              (λ m. tree_of w content h ≡ some m) ⊥ miss (manifest_of w h) (λ _ e. e)
              (λ x. absurd x) (manifest_of-Runs w content auth limits h))
            (λ m e.
              Runs-guard limits (tree_of w content) goal miss (same_kind k m.kind) wrong_type
                (linked m) tt
                (λ s.
                  let j = same_kind-true k m.kind s in
                  Runs-then limits (tree_of w content) (λ _. Unit {0}) goal miss
                    (spend w.clock (λ now. debit_links now (length m.links))) (λ _. chosen m)
                    (links-Runs w content auth limits miss (length m.links))
                    (λ _ _.
                      Runs-then limits (tree_of w content) (λ l. choose segment m ≡ some l) goal
                        miss (found_or (choose segment m) absent)
                        (λ l. next_turn m.kind l segment rest)
                        (Runs-found miss (choose segment m) (λ c. lacks e j c))
                        (λ l c.
                          Runs-weaken limits (tree_of w content)
                            (Chooses (tree_of w content) h k segment rest) goal miss miss
                            (next_turn m.kind l segment rest) (λ t p. (d, p)) (λ x. x)
                            (rw j (turn-Runs h k m l segment rest kk e j c)))))))
    where
      goal : Turn → Type 0
      goal t = (depth ≤ limits.max_depth) × Chooses (tree_of w content) h k segment rest t

      miss : Type 0
      miss = Misses (tree_of w content) h k segment rest

      chosen : Manifest → Step Turn
      chosen m = found_or (choose segment m) absent >>= (λ l. next_turn m.kind l segment rest)

      linked : Manifest → Step Turn
      linked m = spend w.clock (λ now. debit_links now (length m.links)) >> chosen m

      kinded : Manifest → Step Turn
      kinded m = ensure (same_kind k m.kind) wrong_type >> linked m

  -- What the rest of the loop makes of a turn, where it finds what the tree has.
  follow-Runs :
      (h : Text) (k : Kind) (segment : Text) (rest : List Text)
      (again : Text → Kind → Text → List Text → Step Link)
      → ((h' : Text) (k' : Kind) (s : Text) (r : List Text)
          → (k' ≡ directory) ⊎ (k' ≡ fanout)
          → Runs limits
              (tree_of w content)
              (λ l. Leads (tree_of w content) h' k' s r l)
              (Misses (tree_of w content) h' k' s r)
              (again h' k' s r))
      → (t : Turn) → Chooses (tree_of w content) h k segment rest t
      → Runs limits
          (tree_of w content)
          (λ l. Leads (tree_of w content) h k segment rest l)
          (Misses (tree_of w content) h k segment rest)
          (follow again t)
  follow-Runs h k segment rest again good (final l) p =
      Runs-pure limits (tree_of w content) (λ l. Leads (tree_of w content) h k segment rest l)
        (Misses (tree_of w content) h k segment rest) l p
  follow-Runs h k segment rest again good (onward h' k' s r) (kk, hits, loses) =
      Runs-weaken limits (tree_of w content) (λ l. Leads (tree_of w content) h' k' s r l)
        (λ l. Leads (tree_of w content) h k segment rest l) (Misses (tree_of w content) h' k' s r)
        (Misses (tree_of w content) h k segment rest) (again h' k' s r) hits loses
        (good h' k' s r kk)

  pub walk-Runs :
      (fuel : ℕ) (h : Text) (k : Kind) (depth : ℕ) (segment : Text) (rest : List Text)
      → (k ≡ directory) ⊎ (k ≡ fanout)
      → limits.max_depth + 2 ≤ fuel + depth
      → depth ≤ limits.max_depth + 1
      → Runs limits
          (tree_of w content)
          (λ l. Leads (tree_of w content) h k segment rest l)
          (Misses (tree_of w content) h k segment rest)
          (walk w fuel h k depth segment rest)
  unfolding walk
  walk-Runs zero h k depth segment rest kk enough low = absurd (omega (arith, enough, low))
  walk-Runs (suc fuel) h k depth segment rest kk enough low =
      Runs-then limits (tree_of w content)
        (λ t. (depth ≤ limits.max_depth) × Chooses (tree_of w content) h k segment rest t)
        (λ l. Leads (tree_of w content) h k segment rest l)
        (Misses (tree_of w content) h k segment rest) (round w h k depth segment rest)
        (follow (λ h' k' s r. walk w fuel h' k' (depth + 1) s r))
        (round-Runs h k depth segment rest kk)
        (λ t (d, p).
          follow-Runs h k segment rest (λ h' k' s r. walk w fuel h' k' (depth + 1) s r)
            (λ h' k' s r kk'.
              walk-Runs fuel h' k' (depth + 1) s r kk' (omega (arith, enough)) (omega (arith, d)))
            t p)
