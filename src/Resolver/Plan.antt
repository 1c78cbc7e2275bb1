-- ===== src/Resolver/Plan.antt =====
-- src/hashtree/reader.ts, `#filePlan`: the chunks of a file, in order.
use nixstr_cache.Prelude.{
  ℕ, suc, zero, ◌+◌, Bool, true, false, List, [], ◌∷◌, ◌++◌, leb, ◌==◌, length, Text,
}
use nixstr_cache.Nhash.{hex}
use nixstr_cache.Budget.{check_depth, debit_links, ensure_output_available, max_safe}
use nixstr_cache.Manifest.{
  Kind, file, directory, fanout, Link, LinkType, raw_link, file_link, directory_link, fanout_link,
}
use nixstr_cache.Resolver.Step.{
  not_file, not_child, wrong_size, wrong_child_size, unsafe_size, out_of_fuel, Step, ◌>>=◌, ◌>>◌,
  pure, throw, ensure, spend,
}
use nixstr_cache.Resolver.Fetch.{World, manifest_of}

pub record Chunk : Type 0 where
  pub hash : Text
  pub size : ℕ

pub record FilePlan : Type 0 where
  pub size : ℕ
  pub chunks : List Chunk

abbrev pub is_file : Kind → Bool
is_file file = true
is_file directory = false
is_file fanout = false

module _ (w : World) where
  -- What a link stands for; `child` is the visit of a nested manifest.
  abbrev pub part : (Text → Step FilePlan) → LinkType → Link → Step FilePlan
  part child raw_link l =
      pure (record { size = l.size; chunks = (record { hash = hex l.hash; size = l.size }) ∷ [] })
  part child file_link l = do
    p ← child (hex l.hash)
    ensure (l.size == p.size) wrong_child_size
    pure p
  part child directory_link l = throw not_child
  part child fanout_link l = throw not_child

  -- The loop over the links, with the total and the chunks so far.
  unfoldable pub parts : (Text → Step FilePlan) → List Link → ℕ → List Chunk → Step FilePlan
  parts child [] total chunks = pure (record { size = total; chunks = chunks })
  parts child (l ∷ ls) total chunks = do
    p ← part child l.type l
    ensure (leb (total + p.size) max_safe) unsafe_size
    spend w.clock (λ now. ensure_output_available now (total + p.size))
    parts child ls (total + p.size) (chunks ++ p.chunks)

  -- `visit`.
  unfoldable pub visit_file : ℕ → Text → ℕ → Step FilePlan
  visit_file zero hash depth = throw out_of_fuel
  visit_file (suc fuel) hash depth = do
    spend w.clock (λ now. check_depth now depth)
    m ← manifest_of w hash
    ensure (is_file m.kind) not_file
    spend w.clock (λ now. debit_links now (length m.links))
    parts (λ h. visit_file fuel h (depth + 1)) m.links 0 []

  -- `#filePlan`: a depth above the limit throws, so the limit bounds the fuel.
  unfoldable pub file_plan : Text → ℕ → Step FilePlan
  file_plan hash expected s =
      (do
        p ← visit_file (suc s.budget.limits.max_depth) hash 1
        ensure (expected == p.size) wrong_size
        pure p)
        s
