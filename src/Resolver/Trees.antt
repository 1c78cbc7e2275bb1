-- ===== src/Resolver/Trees.antt =====
-- src/hashtree/reader.ts: where a path leads and what a file consists of, read off a tree of
-- manifests, with no budget, cache or server.
use nixstr_cache.Prelude.{
  ℕ, ◌+◌, ◌≡◌, refl, sym, ap, subst, ◌∙◌, Option, none, some, List, [], ◌∷◌, ◌++◌, Text, arith,
  sum_of, sum_of-append,
}
use nixstr_cache.Nhash.{hex}
use nixstr_cache.Manifest.{Manifest, Kind, file, directory, fanout, Link, raw_link, file_link}
use nixstr_cache.Resolver.Plan.{Chunk}
use nixstr_cache.Resolver.Walk.{choose, kind_behind, fan_kind}

module _ (tree : Text → Option Manifest) where
  -- From the manifest of a hash, of a kind, the segments lead to the link.
  pub data Leads : Text → Kind → Text → List Text → Link → Type 0 where
    ends :
        {h segment : Text} {m : Manifest} {l : Link}
        → tree h ≡ some m
        → m.kind ≡ directory
        → choose segment m ≡ some l
        → Leads h directory segment [] l
    enters :
        {h segment next : Text} {rest : List Text} {m : Manifest} {d l : Link} {k : Kind}
        → tree h ≡ some m
        → m.kind ≡ directory
        → choose segment m ≡ some d
        → kind_behind d.type ≡ some k
        → Leads (hex d.hash) k next rest l
        → Leads h directory segment (next ∷ rest) l
    crosses :
        {h segment : Text} {rest : List Text} {m : Manifest} {d l : Link}
        → tree h ≡ some m
        → m.kind ≡ fanout
        → choose segment m ≡ some d
        → Leads (hex d.hash) (fan_kind d.type) segment rest l
        → Leads h fanout segment rest l

  -- From the manifest of a hash, of a kind, the segments lead nowhere.
  pub data Misses : Text → Kind → Text → List Text → Type 0 where
    lacks :
        {h segment : Text} {k : Kind} {rest : List Text} {m : Manifest}
        → tree h ≡ some m
        → m.kind ≡ k
        → choose segment m ≡ none
        → Misses h k segment rest
    stops :
        {h segment next : Text} {rest : List Text} {m : Manifest} {d : Link}
        → tree h ≡ some m
        → m.kind ≡ directory
        → choose segment m ≡ some d
        → kind_behind d.type ≡ none
        → Misses h directory segment (next ∷ rest)
    enters :
        {h segment next : Text} {rest : List Text} {m : Manifest} {d : Link} {k : Kind}
        → tree h ≡ some m
        → m.kind ≡ directory
        → choose segment m ≡ some d
        → kind_behind d.type ≡ some k
        → Misses (hex d.hash) k next rest
        → Misses h directory segment (next ∷ rest)
    crosses :
        {h segment : Text} {rest : List Text} {m : Manifest} {d : Link}
        → tree h ≡ some m
        → m.kind ≡ fanout
        → choose segment m ≡ some d
        → Misses (hex d.hash) (fan_kind d.type) segment rest
        → Misses h fanout segment rest

  -- What the links of a file stand for: how many bytes, in which chunks.
  pub data Parts : List Link → ℕ → List Chunk → Type 0 where
    nothing : Parts [] 0 []
    chunk :
        {l : Link} {ls : List Link} {n k : ℕ} {cs ds : List Chunk}
        → l.type ≡ raw_link
        → Parts ls n cs
        → k ≡ l.size + n
        → ds ≡ (record { hash = hex l.hash; size = l.size }) ∷ cs
        → Parts (l ∷ ls) k ds
    nested :
        {l : Link} {ls : List Link} {m : Manifest} {n k : ℕ} {bs cs ds : List Chunk}
        → l.type ≡ file_link
        → tree (hex l.hash) ≡ some m
        → m.kind ≡ file
        → Parts m.links l.size bs
        → Parts ls n cs
        → k ≡ l.size + n
        → ds ≡ bs ++ cs
        → Parts (l ∷ ls) k ds

  same_manifest : (h : Text) (m n : Manifest) → tree h ≡ some m → tree h ≡ some n → m ≡ n
  same_manifest h m n e f = cc

  same_choice :
      (h segment : Text) (m n : Manifest) {l d : Link}
      → tree h ≡ some m
      → tree h ≡ some n
      → choose segment m ≡ some l
      → choose segment n ≡ some d
      → l ≡ d
  same_choice h segment m n e f g k = let p = same_manifest h m n e f in cc

  same_kind_behind :
      {l d : Link} {k j : Kind}
      → l ≡ d
      → kind_behind l.type ≡ some k
      → kind_behind d.type ≡ some j
      → k ≡ j
  same_kind_behind {l} {d} e f g =
      let q : kind_behind l.type ≡ kind_behind d.type = ap (λ (x : Link). kind_behind x.type) e in
      cc

  moved-Leads :
      (segment : Text) (rest : List Text) (l d d' : Link) (k k' : Kind)
      → d' ≡ d
      → k' ≡ k
      → Leads (hex d'.hash) k' segment rest l
      → Leads (hex d.hash) k segment rest l
  moved-Leads segment rest l d d' k k' e f p =
      subst (λ (j : Kind). Leads (hex d.hash) j segment rest l) f
        (subst (λ (x : Link). Leads (hex x.hash) k' segment rest l) e p)

  moved-Misses :
      (segment : Text) (rest : List Text) (d d' : Link) (k k' : Kind)
      → d' ≡ d
      → k' ≡ k
      → Misses (hex d'.hash) k' segment rest
      → Misses (hex d.hash) k segment rest
  moved-Misses segment rest d d' k k' e f p =
      subst (λ (j : Kind). Misses (hex d.hash) j segment rest) f
        (subst (λ (x : Link). Misses (hex x.hash) k' segment rest) e p)

  -- A path leads to one link at most.
  pub Leads-unique :
      {h segment : Text} {k : Kind} {rest : List Text} {l l' : Link}
      → Leads h k segment rest l
      → Leads h k segment rest l'
      → l ≡ l'
  Leads-unique (ends e _ c) (ends e' _ c') = same_choice _ _ _ _ e e' c c'
  Leads-unique (enters e _ c b p) (enters e' _ c' b' p') =
      let q = same_choice _ _ _ _ e' e c' c in
      Leads-unique p (moved-Leads _ _ _ _ _ _ _ q (same_kind_behind q b' b) p')
  Leads-unique (crosses e _ c p) (crosses e' _ c' p') =
      let q = same_choice _ _ _ _ e' e c' c in
      Leads-unique p (moved-Leads _ _ _ _ _ _ _ q (ap (λ (x : Link). fan_kind x.type) q) p')

  -- A path that leads to a link does not lead nowhere.
  pub Leads-Misses :
      {h segment : Text} {k : Kind} {rest : List Text} {l : Link}
      → Leads h k segment rest l
      → ¬ (Misses h k segment rest)
  Leads-Misses (ends {m = m} e _ c) (lacks {m = n} e' _ c') = let q = same_manifest _ m n e e' in cc
  Leads-Misses (enters {m = m} e _ c b p) (lacks {m = n} e' _ c') =
      let q = same_manifest _ m n e e' in cc
  Leads-Misses (crosses {m = m} e _ c p) (lacks {m = n} e' _ c') =
      let q = same_manifest _ m n e e' in cc
  Leads-Misses (enters {d = d} e _ c b p) (stops {d = d'} e' _ c' b') =
      let q = same_choice _ _ _ _ e' e c' c in
      let t : kind_behind d'.type ≡ kind_behind d.type = ap (λ (x : Link). kind_behind x.type) q in
      cc
  Leads-Misses (enters e _ c b p) (enters e' _ c' b' p') =
      let q = same_choice _ _ _ _ e' e c' c in
      Leads-Misses p (moved-Misses _ _ _ _ _ _ q (same_kind_behind q b' b) p')
  Leads-Misses (crosses e _ c p) (crosses e' _ c' p') =
      let q = same_choice _ _ _ _ e' e c' c in
      Leads-Misses p (moved-Misses _ _ _ _ _ _ q (ap (λ (x : Link). fan_kind x.type) q) p')

  moved-Parts :
      (l : Link) (m n : Manifest) (bs : List Chunk)
      → m ≡ n
      → Parts m.links l.size bs
      → Parts n.links l.size bs
  moved-Parts l m n bs e p = subst (λ (x : Manifest). Parts x.links l.size bs) e p

  -- The links of a file have one size and one list of chunks.
  pub Parts-unique :
      {ls : List Link} {n k : ℕ} {cs ds : List Chunk}
      → Parts ls n cs
      → Parts ls k ds
      → (n ≡ k) × (cs ≡ ds)
  Parts-unique nothing nothing = (refl, refl)
  Parts-unique (chunk {l = l} t p a b) (chunk t' p' a' b') =
      let (e, f) = Parts-unique p p' in (a ∙ ap (λ (x : ℕ). l.size + x) e ∙ sym a', cc)
  Parts-unique (chunk t p a b) (nested t' _ _ _ p' a' b') = let q = sym t ∙ t' in cc
  Parts-unique (nested t _ _ _ p a b) (chunk t' p' a' b') = let q = sym t ∙ t' in cc
  Parts-unique (nested {l = l} {m = m} t e _ g p a b) (nested {m = n} t' e' _ g' p' a' b') =
      let (x, f) = Parts-unique p p' in
      let (_, y) = Parts-unique g (moved-Parts l n m _ (same_manifest _ n m e' e) g') in
      (a ∙ ap (λ (z : ℕ). l.size + z) x ∙ sym a', cc)

  -- The size of a file is the sum of those of its chunks.
  pub Parts-sum_of :
      {ls : List Link} {n : ℕ} {cs : List Chunk}
      → Parts ls n cs
      → sum_of (λ (c : Chunk). c.size) cs ≡ n
  Parts-sum_of nothing = refl
  Parts-sum_of (chunk t p a b) = rw b (omega (arith, Parts-sum_of p, a))
  Parts-sum_of (nested {bs = bs} {cs = cs} t e k g p a b) = rw b (
      omega (arith, sum_of-append (λ (c : Chunk). c.size) bs cs, Parts-sum_of p, Parts-sum_of g, a))
