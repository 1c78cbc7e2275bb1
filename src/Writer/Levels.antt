-- ===== src/Writer/Levels.antt =====
-- src/hashtree/writer.ts: the levels of a file that `collapse` builds stand for the same chunks.
use nixstr_cache.Prelude.{
  ℕ, ◌+◌, ◌≡◌, refl, sym, ap, subst, ◌∙◌, Option, none, some, List, [], ◌∷◌, ◌++◌, append_assoc,
  append-nil, Text, arith, inl, inr,
}
use nixstr_cache.Prelude.Result.{ok, >>=-eq-ok}
use nixstr_cache.Nhash.{hex}
use nixstr_cache.Manifest.{Manifest, file, Link, file_link}
use nixstr_cache.Resolver.Plan.{Chunk}
use nixstr_cache.Resolver.Trees.{Parts, nothing, nested}
use nixstr_cache.Writer.{
  Blob, State, Limits, Platform, a_file, persist_manifest, flush_group, next_level,
}
use nixstr_cache.Writer.Spelling.{Spelled, Spelled-append, Spelled-uncons, logical_size_of-Parts}
use nixstr_cache.Writer.Laws.{
  persist_manifest-eq-ok, HasAll, next_level-row, next_level-last, next_level-HasAll,
}

module _ (p : Platform) (limits : Limits) (tree : Text → Option Manifest) where
  -- The link to a group of chunks stands for the same chunks.
  flush_group-Spelled :
      (level : ℕ) (ls : List Link) (s : State) (cs : List Chunk) {l : Link} {t : State}
      → flush_group p limits a_file level ls s ≡ ok (l, t)
      → HasAll p tree t.manifests
      → Spelled tree ls cs
      → Spelled tree (l ∷ []) cs × HasAll p tree s.manifests
  unfolding flush_group
  flush_group-Spelled level ls s cs {l} {t} h known (n, q) =
      let m : Manifest = record { kind = file; links = ls } in
      let ((b, k, u), e, last) = >>=-eq-ok (persist_manifest p limits m s) _ h in
      let (x, y, z) = persist_manifest-eq-ok p limits m s e in
      let f : t ≡ u = ground (arith, last) in
      let g : HasAll p tree (m ∷ s.manifests) =
        subst (HasAll p tree) z (subst (λ (v : State). HasAll p tree v.manifests) f known) in
      let size : n ≡ k = sym (logical_size_of-Parts tree ls 0 y q ∙ omega arith) in
      let linked : l ≡ group_link b k = ground (arith, last) in
      (
        subst (λ (v : Link). Spelled tree (v ∷ []) cs) (sym linked)
            (
              k + 0,
              nested refl (subst (λ (d : List ℕ). tree (hex d) ≡ some m) (sym x) g.0) refl
                  (subst (λ (j : ℕ). Parts tree ls j cs) size q) nothing refl (sym (append-nil cs)),
            ),
        g.1,
      )
    where
      group_link : Blob → ℕ → Link
      group_link b k = record {
        hash = b.hash;
        key = none;
        metadata = none;
        name = none;
        size = k;
        type = file_link;
      }

  -- A group that is flushed behind the links of the next level.
  flushed-Spelled :
      (level : ℕ) (group next : List Link) (s : State) (cs ds : List Chunk) {l : Link} {t : State}
      → flush_group p limits a_file level group s ≡ ok (l, t)
      → HasAll p tree t.manifests
      → Spelled tree next cs
      → Spelled tree group ds
      → Spelled tree (next ++ l ∷ []) (cs ++ ds) × HasAll p tree s.manifests
  flushed-Spelled level group next s cs ds {l} h known q r =
      let (x, y) = flush_group-Spelled level group s ds h known r in
      (Spelled-append tree next (l ∷ []) cs ds q x, y)

  pub next_level-Spelled :
      (level : ℕ) (rows group next : List Link) (s : State) (cs ds es : List Chunk)
      {out : List Link} {t : State}
      → next_level p limits a_file level rows group next s ≡ ok (out, t)
      → HasAll p tree t.manifests
      → Spelled tree next cs
      → Spelled tree group ds
      → Spelled tree rows es
      → Spelled tree out (cs ++ (ds ++ es))
  unfolding next_level
  next_level-Spelled level [] [] next s cs ds es {out} {t} h known q (_, nothing) (_, nothing) =
      let e : next ≡ out = ground (arith, h) in
      subst (λ (ls : List Link). Spelled tree ls (cs ++ [])) e
        (subst (Spelled tree next) (sym (append-nil cs)) q)
  next_level-Spelled level [] (g ∷ group) next s cs ds es {out} {t} h known q r (_, nothing) =
      let (l, e, o) = next_level-last p limits a_file level g group next s h in
      let (x, _) = flushed-Spelled level (g ∷ group) next s cs ds e known q r in
      subst (λ (ls : List Link). Spelled tree ls (cs ++ (ds ++ []))) (sym o)
        (subst (λ (bs : List Chunk). Spelled tree (next ++ l ∷ []) (cs ++ bs)) (sym (append-nil ds))
          x)
  next_level-Spelled level (r ∷ rows) group next s cs ds es {out} {t} h known q g k =
      let (bs, fs, one, rest, split) = Spelled-uncons tree r rows es k in
      let grown = Spelled-append tree group (r ∷ []) ds bs g one in
      elim (next_level-row p limits a_file level r rows group next s h) [
        | inl e ↦
            subst (Spelled tree out)
              (ap (λ (v : List Chunk). cs ++ v)
                (append_assoc ds bs fs ∙ ap (λ (v : List Chunk). ds ++ v) (sym split)))
              (next_level-Spelled level rows (group ++ r ∷ []) next s cs (ds ++ bs) fs e known q
                grown rest)
        | inr (l, u, f, e, _) ↦
            let later =
              next_level-HasAll p limits tree a_file level rows [] (next ++ l ∷ []) u e known in
            let (x, _) =
              flushed-Spelled level (group ++ r ∷ []) next s cs (ds ++ bs) f later q grown in
            subst (Spelled tree out)
              (append_assoc cs (ds ++ bs) fs
                ∙ ap (λ (v : List Chunk). cs ++ v)
                    (append_assoc ds bs fs ∙ ap (λ (v : List Chunk). ds ++ v) (sym split)))
              (next_level-Spelled level rows [] (next ++ l ∷ []) u (cs ++ (ds ++ bs)) [] fs e known
                x (0, nothing) rest)
      ]
