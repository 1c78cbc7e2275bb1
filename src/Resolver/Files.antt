-- ===== src/Resolver/Files.antt =====
-- src/hashtree/reader.ts, `#filePlan`: the plan of a file, against the tree.
use nixstr_cache.Prelude.{
  ℕ, zero, suc, ◌+◌, ◌≤◌, ◌≡◌, refl, sym, ap, subst, ◌∙◌, true, Option, some, List, [], ◌∷◌, ◌++◌,
  append_assoc, append-nil, leb, ◌==◌, ==_iff, length, Text, arith,
}
use nixstr_cache.Nhash.{hex}
use nixstr_cache.Budget
use nixstr_cache.Budget.{Budget, check_depth, debit_links, ensure_output_available, max_safe}
use nixstr_cache.Manifest.{
  Manifest, Kind, file, directory, fanout, Link, LinkType, raw_link, file_link, directory_link,
  fanout_link,
}
use nixstr_cache.Resolver.Step.{
  not_file, not_child, wrong_size, wrong_child_size, unsafe_size, Step, ◌>>=◌, ◌>>◌, pure, ensure,
  spend,
}
use nixstr_cache.Resolver.Fetch.{World, manifest_of}
use nixstr_cache.Resolver.Plan.{Chunk, FilePlan, is_file, part, parts, visit_file, file_plan}
use nixstr_cache.Resolver.Runs.{
  Runs, Fair, Runs-pure, Runs-throw, Runs-guard, Runs-then, Runs-spend, Runs-weaken,
}
use nixstr_cache.Resolver.Fetches.{
  tree_of, IsAuthentic, check_depth-Fair, debit_links-Fair, ensure_output_available-Fair,
}
use nixstr_cache.Resolver.Loads.{manifest_of-Runs}
use nixstr_cache.Resolver.Trees.{Parts, nothing, chunk, nested}

-- The plan of the file at a hash.
pub record IsFilePlan (tree : Text → Option Manifest) (h : Text) (p : FilePlan) : Type 0 where
  pub manifest : Manifest
  pub found : tree h ≡ some manifest
  pub kind : manifest.kind ≡ file
  pub parts : Parts tree manifest.links p.size p.chunks

-- The links behind a total and the chunks so far.
record Adds (tree : Text → Option Manifest) (ls : List Link) (total : ℕ) (chunks : List Chunk)
    (p : FilePlan) : Type 0 where
  size : ℕ
  more : List Chunk
  added : Parts tree ls size more
  sized : p.size ≡ total + size
  listed : p.chunks ≡ chunks ++ more

abbrev Prepends : (Text → Option Manifest) → Link → FilePlan → Type 0
Prepends tree l p =
    (ls : List Link) (n : ℕ) (cs : List Chunk)
    → Parts tree ls n cs
    → Parts tree (l ∷ ls) (p.size + n) (p.chunks ++ cs)

is_file-true : (k : Kind) → is_file k ≡ true → k ≡ file
is_file-true file h = refl
is_file-true directory h = cc
is_file-true fanout h = cc

module _ (w : World) (content : Text → List ℕ) (auth : IsAuthentic w content)
    (limits : Budget.Limits) where
  pub depth-Runs :
      (X : Type 0) (depth : ℕ)
      → Runs limits
          (tree_of w content)
          (λ _. depth ≤ limits.max_depth)
          X
          (spend w.clock (λ now. check_depth now depth))
  depth-Runs X depth =
      Runs-spend limits (tree_of w content) (λ _. depth ≤ limits.max_depth) X w.clock
        (λ now. check_depth now depth) (λ now b e. fair now b e (check_depth-Fair now depth b))
    where
      fair :
          (now : ℕ) (b : Budget)
          → b.limits ≡ limits
          → Fair b (λ _. depth ≤ b.limits.max_depth) (check_depth now depth b)
          → Fair b (λ _. depth ≤ limits.max_depth) (check_depth now depth b)
      fair now b e h =
          subst (λ (l : Budget.Limits). Fair b (λ _. depth ≤ l.max_depth) (check_depth now depth b))
            e h

  pub links-Runs :
      (X : Type 0) (n : ℕ)
      → Runs limits (tree_of w content) (λ _. Unit {0}) X (spend w.clock (λ now. debit_links now n))
  links-Runs X n =
      Runs-spend limits (tree_of w content) (λ _. Unit {0}) X w.clock (λ now. debit_links now n)
        (λ now b _. debit_links-Fair now n b)

  module _ (child : Text → Step FilePlan)
      (good : (h : Text)
        → Runs limits (tree_of w content) (IsFilePlan (tree_of w content) h) ⊥ (child h)) where
    part-Runs :
        (t : LinkType) (l : Link)
        → l.type ≡ t
        → Runs limits (tree_of w content) (Prepends (tree_of w content) l) ⊥ (part w child t l)
    part-Runs raw_link l e =
        Runs-pure limits (tree_of w content) (Prepends (tree_of w content) l) ⊥
          (record { size = l.size; chunks = (record { hash = hex l.hash; size = l.size }) ∷ [] })
          (λ ls n cs p. chunk e p refl refl)
    part-Runs file_link l e =
        Runs-then limits (tree_of w content) (IsFilePlan (tree_of w content) (hex l.hash))
          (Prepends (tree_of w content) l) ⊥ (child (hex l.hash))
          (λ p. ensure (l.size == p.size) wrong_child_size >> pure p) (good (hex l.hash))
          (λ p f.
            Runs-guard limits (tree_of w content) (Prepends (tree_of w content) l) ⊥
              (l.size == p.size) wrong_child_size (pure p) tt
              (λ s.
                let q = (==_iff l.size p.size).0 s in
                Runs-pure limits (tree_of w content) (Prepends (tree_of w content) l) ⊥ p
                  (λ ls n cs g.
                    nested e f.found f.kind
                      (subst (λ (n : ℕ). Parts (tree_of w content) (f.manifest).links n p.chunks)
                        (sym q) f.parts)
                      g (ap (λ (z : ℕ). z + n) (sym q)) refl)))
    part-Runs directory_link l e =
        Runs-throw limits (tree_of w content) (Prepends (tree_of w content) l) ⊥ not_child tt
    part-Runs fanout_link l e =
        Runs-throw limits (tree_of w content) (Prepends (tree_of w content) l) ⊥ not_child tt

    parts-Runs :
        (ls : List Link) (total : ℕ) (chunks : List Chunk)
        → Runs limits
            (tree_of w content)
            (Adds (tree_of w content) ls total chunks)
            ⊥
            (parts w child ls total chunks)
    unfolding parts
    parts-Runs [] total chunks =
        Runs-pure limits (tree_of w content) (Adds (tree_of w content) [] total chunks) ⊥
          (record { size = total; chunks = chunks })
          (record {
            size = 0;
            more = [];
            added = nothing;
            sized = omega arith;
            listed = sym (append-nil chunks);
          })
    parts-Runs (l ∷ ls) total chunks =
        Runs-then limits (tree_of w content) (Prepends (tree_of w content) l)
          (Adds (tree_of w content) (l ∷ ls) total chunks) ⊥ (part w child l.type l) (λ p. later p)
          (part-Runs l.type l refl)
          (λ p pre.
            Runs-guard limits (tree_of w content) (Adds (tree_of w content) (l ∷ ls) total chunks) ⊥
              (leb (total + p.size) max_safe) unsafe_size (counted p) tt
              (λ _.
                Runs-then limits (tree_of w content) (λ _. Unit {0})
                  (Adds (tree_of w content) (l ∷ ls) total chunks) ⊥
                  (spend w.clock (λ now. ensure_output_available now (total + p.size)))
                  (λ _. parts w child ls (total + p.size) (chunks ++ p.chunks))
                  (Runs-spend limits (tree_of w content) (λ _. Unit {0}) ⊥ w.clock
                    (λ now. ensure_output_available now (total + p.size))
                    (λ now b _. ensure_output_available-Fair now (total + p.size) b))
                  (λ _ _.
                    Runs-weaken limits (tree_of w content)
                      (Adds (tree_of w content) ls (total + p.size) (chunks ++ p.chunks))
                      (Adds (tree_of w content) (l ∷ ls) total chunks) ⊥ ⊥
                      (parts w child ls (total + p.size) (chunks ++ p.chunks))
                      (λ q a. record {
                        size = p.size + a.size;
                        more = p.chunks ++ a.more;
                        added = pre ls a.size a.more a.added;
                        sized = omega (arith, a.sized);
                        listed = a.listed ∙ append_assoc chunks p.chunks a.more;
                      })
                      (λ x. x) (parts-Runs ls (total + p.size) (chunks ++ p.chunks)))))
      where
        counted : FilePlan → Step FilePlan
        counted p =
            spend w.clock (λ now. ensure_output_available now (total + p.size))
            >> parts w child ls (total + p.size) (chunks ++ p.chunks)

        later : FilePlan → Step FilePlan
        later p = ensure (leb (total + p.size) max_safe) unsafe_size >> counted p

  visit_file-Runs :
      (fuel : ℕ) (h : Text) (depth : ℕ)
      → limits.max_depth + 2 ≤ fuel + depth
      → depth ≤ limits.max_depth + 1
      → Runs limits
          (tree_of w content)
          (IsFilePlan (tree_of w content) h)
          ⊥
          (visit_file w fuel h depth)
  unfolding visit_file
  visit_file-Runs zero h depth enough low = absurd (omega (arith, enough, low))
  visit_file-Runs (suc fuel) h depth enough low =
      Runs-then limits (tree_of w content) (λ _. depth ≤ limits.max_depth) goal ⊥
        (spend w.clock (λ now. check_depth now depth)) (λ _. manifest_of w h >>= (λ m. kinded m))
        (depth-Runs ⊥ depth)
        (λ _ d.
          Runs-then limits (tree_of w content) (λ m. tree_of w content h ≡ some m) goal ⊥
            (manifest_of w h) (λ m. kinded m) (manifest_of-Runs w content auth limits h)
            (λ m e.
              Runs-guard limits (tree_of w content) goal ⊥ (is_file m.kind) not_file (linked m) tt
                (λ k.
                  Runs-then limits (tree_of w content) (λ _. Unit {0}) goal ⊥
                    (spend w.clock (λ now. debit_links now (length m.links)))
                    (λ _. parts w child m.links 0 []) (links-Runs ⊥ (length m.links))
                    (λ _ _.
                      Runs-weaken limits (tree_of w content) (Adds (tree_of w content) m.links 0 [])
                        goal ⊥ ⊥ (parts w child m.links 0 [])
                        (λ p a. planned m p e (is_file-true m.kind k) a) (λ x. x)
                        (parts-Runs child
                          (λ h'.
                            visit_file-Runs fuel h' (depth + 1) (omega (arith, enough))
                              (omega (arith, d)))
                          m.links 0 [])))))
    where
      goal : FilePlan → Type 0
      goal = IsFilePlan (tree_of w content) h

      child : Text → Step FilePlan
      child h' = visit_file w fuel h' (depth + 1)

      linked : Manifest → Step FilePlan
      linked m =
          spend w.clock (λ now. debit_links now (length m.links)) >> parts w child m.links 0 []

      kinded : Manifest → Step FilePlan
      kinded m = ensure (is_file m.kind) not_file >> linked m

      planned :
          (m : Manifest) (p : FilePlan)
          → tree_of w content h ≡ some m
          → m.kind ≡ file
          → Adds (tree_of w content) m.links 0 [] p
          → goal p
      planned m p e k a = record {
        manifest = m;
        found = e;
        kind = k;
        parts =
            subst (λ (n : ℕ). Parts (tree_of w content) m.links n p.chunks) (omega (arith, a.sized))
              (subst (λ (cs : List Chunk). Parts (tree_of w content) m.links a.size cs)
                (sym a.listed) a.added);
      }

  -- `#filePlan` returns the plan of the tree, of the expected size.
  pub file_plan-Runs :
      (h : Text) (expected : ℕ)
      → Runs limits
          (tree_of w content)
          (λ p. (expected ≡ p.size) × IsFilePlan (tree_of w content) h p)
          ⊥
          (file_plan w h expected)
  unfolding file_plan
  file_plan-Runs h expected s v =
      Runs-then limits (tree_of w content) (IsFilePlan (tree_of w content) h) goal ⊥
        (visit_file w (suc s.budget.limits.max_depth) h 1)
        (λ p. ensure (expected == p.size) wrong_size >> pure p)
        (visit_file-Runs (suc s.budget.limits.max_depth) h 1 (rw v.limits (omega arith))
          (omega arith))
        (λ p f.
          Runs-guard limits (tree_of w content) goal ⊥ (expected == p.size) wrong_size (pure p) tt
            (λ e. Runs-pure limits (tree_of w content) goal ⊥ p ((==_iff expected p.size).0 e, f)))
        s v
    where
      goal : FilePlan → Type 0
      goal p = (expected ≡ p.size) × IsFilePlan (tree_of w content) h p
