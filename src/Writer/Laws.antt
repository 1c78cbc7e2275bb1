-- ===== src/Writer/Laws.antt =====
-- src/hashtree/writer.ts: what the calls that persist manifests have done, one by one.
use nixstr_cache.Prelude.{
  ℕ, zero, suc, ◌+◌, ◌≤◌, ◌<◌, ◌≡◌, refl, subst, Bool, true, false, Option, none, some, ◌&&◌, List,
  [], ◌∷◌, ◌++◌, leb, ltb, ◌==◌, length, Text, arith, lookup, All, ◌⊎◌, inl, inr, leb→le, leb-false,
  ltb-false,
}
use nixstr_cache.Prelude.Result.{ok, ◌>>=◌, >>=-eq-ok, passes}
use nixstr_cache.Nhash.{hex}
use nixstr_cache.Manifest.{Manifest, Link, encode_manifest}
use nixstr_cache.Writer.{
  identity_changed, inventory_full, Blob, Built, State, Limits, Platform, Target, manifest_kind,
  logical_size_of, persist, persist_at, persist_manifest, flush_group, next_level, finish, collapse,
}

module _ (p : Platform) (limits : Limits) where
  abbrev pub digest_of : Manifest → List ℕ
  digest_of m = p.sha256 (p.encode (encode_manifest m))

  pub persist_manifest-eq-ok :
      (m : Manifest) (s : State) {b : Blob} {n : ℕ} {t : State}
      → persist_manifest p limits m s ≡ ok (b, n, t)
      → (b.hash ≡ digest_of m)
        × (logical_size_of m.links 0 ≡ ok n)
        × (t.manifests ≡ m ∷ s.manifests)
  unfolding persist_manifest persist
  persist_manifest-eq-ok m s h =
      let ((b', u), e, h1) =
        >>=-eq-ok
          (persist_at p limits (lookup (hex (digest_of m)) s.inventory)
            (p.encode (encode_manifest m)) s)
          _ h in
      let (k, f, last) = >>=-eq-ok (logical_size_of m.links 0) _ h1 in
      let (x, y) = persisted (lookup (hex (digest_of m)) s.inventory) b' u e in
      ground (arith, x, y, f, last)
    where
      persisted :
          (o : Option ℕ) (b : Blob) (t : State)
          → persist_at p limits o (p.encode (encode_manifest m)) s ≡ ok (b, t)
          → (b.hash ≡ digest_of m) × (t.manifests ≡ s.manifests)
      persisted (some size) b t h =
          let (_, h1) =
            passes (size == length (p.encode (encode_manifest m))) identity_changed _ h in
          ground (arith, h1)
      persisted none b t h =
          let (_, h1) =
            passes
              (leb (length s.inventory + 1) limits.max_inventory_blobs
                && leb (s.total + length (p.encode (encode_manifest m))) limits.max_inventory_bytes)
              inventory_full _ h in
          ground (arith, h1)

-- A tree that has each manifest of a log under its digest.
abbrev pub HasAll : Platform → (Text → Option Manifest) → List Manifest → Type 0
HasAll p tree ms = All (λ m. tree (hex (p.sha256 (p.encode (encode_manifest m)))) ≡ some m) ms

module _ (p : Platform) (limits : Limits) where
  -- A row joins the group, or fills it.
  pub next_level-row :
      (kind : Target) (level : ℕ) (r : Link) (rows group next : List Link) (s : State)
      {out : List Link} {t : State}
      → next_level p limits kind level (r ∷ rows) group next s ≡ ok (out, t)
      → (next_level p limits kind level rows (group ++ r ∷ []) next s ≡ ok (out, t))
        ⊎ ((l : Link) × (u : State) × (flush_group p limits kind level (group ++ r ∷ []) s
              ≡ ok (l, u))
            × (next_level p limits kind level rows [] (next ++ l ∷ []) u ≡ ok (out, t))
            × (limits.max_links ≤ length (group ++ r ∷ [])))
  unfolding next_level
  next_level-row kind level r rows group next s {out} {t} h =
      split (ltb (length (group ++ r ∷ [])) limits.max_links) refl h
    where
      split :
          (v : Bool)
          → ltb (length (group ++ r ∷ [])) limits.max_links ≡ v
          → (elim v [
            | true ↦ next_level p limits kind level rows (group ++ r ∷ []) next s
            | false ↦
                flush_group p limits kind level (group ++ r ∷ []) s
                >>= (λ (l, t). next_level p limits kind level rows [] (next ++ l ∷ []) t)
          ])
            ≡ ok (out, t)
          → (next_level p limits kind level rows (group ++ r ∷ []) next s ≡ ok (out, t))
            ⊎ ((l : Link) × (u : State) × (flush_group p limits kind level (group ++ r ∷ []) s
                  ≡ ok (l, u))
                × (next_level p limits kind level rows [] (next ++ l ∷ []) u ≡ ok (out, t))
                × (limits.max_links ≤ length (group ++ r ∷ [])))
      split true e h = inl h
      split false e h =
          let ((l, u), f, last) =
            >>=-eq-ok (flush_group p limits kind level (group ++ r ∷ []) s) _ h in
          inr (l, u, f, last, ltb-false _ _ e)

  -- The last group of a level.
  pub next_level-last :
      (kind : Target) (level : ℕ) (g : Link) (group next : List Link) (s : State) {out : List Link}
      {t : State}
      → next_level p limits kind level [] (g ∷ group) next s ≡ ok (out, t)
      → (l : Link) × (flush_group p limits kind level (g ∷ group) s ≡ ok (l, t))
        × (out ≡ next ++ l ∷ [])
  unfolding next_level
  next_level-last kind level g group next s {out} {t} h =
      let ((l, u), e, last) = >>=-eq-ok (flush_group p limits kind level (g ∷ group) s) _ h in
      let f : u ≡ t = ground (arith, last) in
      (
        l,
        subst (λ (v : State). flush_group p limits kind level (g ∷ group) s ≡ ok (l, v)) f e,
        ground (arith, last),
      )

  -- A level is the last one when its links fit into one manifest.
  pub collapse-turn :
      (fuel : ℕ) (kind : Target) (level : ℕ) (ls : List Link) (s : State) {b : Built} {t : State}
      → collapse p limits (suc fuel) kind level ls s ≡ ok (b, t)
      → ((length ls ≤ limits.max_links) × (finish p limits kind level ls s ≡ ok (b, t)))
        ⊎ ((next : List Link) × (u : State) × (next_level p limits kind level ls [] [] s
              ≡ ok (next, u))
            × (collapse p limits fuel kind (suc level) next u ≡ ok (b, t))
            × (limits.max_links < length ls))
  unfolding collapse
  collapse-turn fuel kind level ls s {b} {t} h = turn (leb (length ls) limits.max_links) refl h
    where
      turn :
          (v : Bool)
          → leb (length ls) limits.max_links ≡ v
          → (elim v [
            | true ↦ finish p limits kind level ls s
            | false ↦
                next_level p limits kind level ls [] [] s
                >>= (λ (next, t). collapse p limits fuel kind (suc level) next t)
          ])
            ≡ ok (b, t)
          → ((length ls ≤ limits.max_links) × (finish p limits kind level ls s ≡ ok (b, t)))
            ⊎ ((next : List Link) × (u : State) × (next_level p limits kind level ls [] [] s
                  ≡ ok (next, u))
                × (collapse p limits fuel kind (suc level) next u ≡ ok (b, t))
                × (limits.max_links < length ls))
      turn true e h = inl (leb→le _ _ e, h)
      turn false e h =
          let ((next, u), f, last) = >>=-eq-ok (next_level p limits kind level ls [] [] s) _ h in
          inr (next, u, f, last, leb-false _ _ e)

  -- What holds of the state behind a persisted manifest, and so of the one before it, holds before
  -- every call that persists manifests only.
  module _ (Q : State → Type 0)
      (back : (m : Manifest) (s : State) (b : Blob) (n : ℕ) (t : State)
        → persist_manifest p limits m s ≡ ok (b, n, t)
        → Q t
        → Q s) where
    flush_group_back :
        (kind : Target) (level : ℕ) (ls : List Link) (s : State) {l : Link} {t : State}
        → flush_group p limits kind level ls s ≡ ok (l, t)
        → Q t
        → Q s
    unfolding flush_group
    flush_group_back kind level ls s {l} {t} h known =
        let m : Manifest = record { kind = manifest_kind kind level; links = ls } in
        let ((b, k, u), e, last) = >>=-eq-ok (persist_manifest p limits m s) _ h in
        let f : t ≡ u = ground (arith, last) in back m s b k u e (subst Q f known)

    pub next_level_back :
        (kind : Target) (level : ℕ) (rows group next : List Link) (s : State) {out : List Link}
        {t : State}
        → next_level p limits kind level rows group next s ≡ ok (out, t)
        → Q t
        → Q s
    unfolding next_level
    next_level_back kind level [] [] next s {out} {t} h known =
        let f : t ≡ s = ground (arith, h) in subst Q f known
    next_level_back kind level [] (g ∷ group) next s h known =
        let (l, e, _) = next_level-last kind level g group next s h in
        flush_group_back kind level (g ∷ group) s e known
    next_level_back kind level (r ∷ rows) group next s h known =
        elim (next_level-row kind level r rows group next s h) [
          | inl k ↦ next_level_back kind level rows (group ++ r ∷ []) next s k known
          | inr (l, u, e, k, _) ↦
              flush_group_back kind level (group ++ r ∷ []) s e
                (next_level_back kind level rows [] (next ++ l ∷ []) u k known)
        ]

    finish_back :
        (kind : Target) (level : ℕ) (ls : List Link) (s : State) {b : Built} {t : State}
        → finish p limits kind level ls s ≡ ok (b, t)
        → Q t
        → Q s
    unfolding finish
    finish_back kind level ls s {b} {t} h known =
        let m : Manifest = record { kind = manifest_kind kind level; links = ls } in
        let ((x, k, u), e, last) = >>=-eq-ok (persist_manifest p limits m s) _ h in
        let f : t ≡ u = ground (arith, last) in back m s x k u e (subst Q f known)

    pub collapse_back :
        (fuel : ℕ) (kind : Target) (level : ℕ) (ls : List Link) (s : State) {b : Built} {t : State}
        → collapse p limits fuel kind level ls s ≡ ok (b, t)
        → Q t
        → Q s
    unfolding collapse
    collapse_back zero kind level ls s h known = cc
    collapse_back (suc fuel) kind level ls s h known = elim (collapse-turn fuel kind level ls s h) [
      | inl (_, e) ↦ finish_back kind level ls s e known
      | inr (next, u, e, k, _) ↦
          next_level_back kind level ls [] [] s e
            (collapse_back fuel kind (suc level) next u k known)
    ]

  -- The log of manifests only grows.
  persist_manifest-HasAll :
      (tree : Text → Option Manifest) (m : Manifest) (s : State) (b : Blob) (n : ℕ) (t : State)
      → persist_manifest p limits m s ≡ ok (b, n, t)
      → HasAll p tree t.manifests
      → HasAll p tree s.manifests
  persist_manifest-HasAll tree m s b n t h known =
      (subst (HasAll p tree) (persist_manifest-eq-ok p limits m s h).2 known).1

  pub next_level-HasAll :
      (tree : Text → Option Manifest) (kind : Target) (level : ℕ) (rows group next : List Link)
      (s : State) {out : List Link} {t : State}
      → next_level p limits kind level rows group next s ≡ ok (out, t)
      → HasAll p tree t.manifests
      → HasAll p tree s.manifests
  next_level-HasAll tree kind level rows group next s h known =
      next_level_back (λ t. HasAll p tree t.manifests) (persist_manifest-HasAll tree) kind level
        rows group next s h known

  pub collapse-HasAll :
      (tree : Text → Option Manifest) (fuel : ℕ) (kind : Target) (level : ℕ) (ls : List Link)
      (s : State) {b : Built} {t : State}
      → collapse p limits fuel kind level ls s ≡ ok (b, t)
      → HasAll p tree t.manifests
      → HasAll p tree s.manifests
  collapse-HasAll tree fuel kind level ls s h known =
      collapse_back (λ t. HasAll p tree t.manifests) (persist_manifest-HasAll tree) fuel kind level
        ls s h known
