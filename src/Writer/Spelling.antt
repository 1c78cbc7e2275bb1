-- ===== src/Writer/Spelling.antt =====
-- src/hashtree/writer.ts: links that stand for chunks.
use nixstr_cache.Prelude.{
  ℕ, ◌+◌, ◌≡◌, refl, sym, Option, List, [], ◌∷◌, ◌++◌, append_assoc, append-nil, leb, Text, arith,
}
use nixstr_cache.Prelude.Result.{ok, passes, ok_injective}
use nixstr_cache.Nhash.{hex}
use nixstr_cache.Manifest.{Manifest, Link, max_safe}
use nixstr_cache.Resolver.Plan.{Chunk}
use nixstr_cache.Resolver.Trees.{Parts, nothing, chunk, nested}
use nixstr_cache.Writer.{unsafe_size, logical_size_of}

module _ (tree : Text → Option Manifest) where
  -- Links that stand for chunks, of whatever size.
  abbrev pub Spelled : List Link → List Chunk → Type 0
  Spelled ls cs = (n : ℕ) × Parts tree ls n cs

  pub Spelled-append :
      (ls ms : List Link) (cs ds : List Chunk)
      → Spelled ls cs
      → Spelled ms ds
      → Spelled (ls ++ ms) (cs ++ ds)
  Spelled-append [] ms cs ds (n, nothing) q = q
  Spelled-append (l ∷ ls) ms cs ds (n, chunk {cs = bs} t p a b) q =
      let (k, r) = Spelled-append ls ms bs ds (_, p) q in (l.size + k, chunk t r refl (rw b refl))
  Spelled-append (l ∷ ls) ms cs ds (n, nested {bs = bs} {cs = es} t e k g p a b) q =
      let (j, r) = Spelled-append ls ms es ds (_, p) q in
      (l.size + j, nested t e k g r refl (rw b (append_assoc bs es ds)))

  -- The first link and the others.
  pub Spelled-uncons :
      (l : Link) (ls : List Link) (cs : List Chunk)
      → Spelled (l ∷ ls) cs
      → (bs : List Chunk) × (ds : List Chunk) × Spelled (l ∷ []) bs
        × Spelled ls ds
        × (cs ≡ bs ++ ds)
  Spelled-uncons l ls cs (n, chunk {cs = ds} t p a b) = (
    (record { hash = hex l.hash; size = l.size }) ∷ [],
    ds,
    (l.size + 0, chunk t nothing refl refl),
    (_, p),
    b,
  )
  Spelled-uncons l ls cs (n, nested {bs = bs} {cs = ds} t e k g p a b) =
      (bs, ds, (l.size + 0, nested t e k g nothing refl (sym (append-nil bs))), (_, p), b)

  pub logical_size_of-Parts :
      (ls : List Link) (total : ℕ) {k n : ℕ} {cs : List Chunk}
      → logical_size_of ls total ≡ ok k
      → Parts tree ls n cs
      → k ≡ total + n
  unfolding logical_size_of
  logical_size_of-Parts [] total h nothing = omega (arith, ok_injective h)
  logical_size_of-Parts (l ∷ ls) total h (chunk t p a b) =
      let (_, h1) = passes (leb (total + l.size) max_safe) unsafe_size _ h in
      omega (arith, logical_size_of-Parts ls (total + l.size) h1 p, a)
  logical_size_of-Parts (l ∷ ls) total h (nested t e k g p a b) =
      let (_, h1) = passes (leb (total + l.size) max_safe) unsafe_size _ h in
      omega (arith, logical_size_of-Parts ls (total + l.size) h1 p, a)
