-- ===== src/Writer/Fuel.antt =====
-- src/hashtree/writer.ts, `collapse`: its loop ends.
use nixstr_cache.Prelude.{
  ℕ, zero, suc, ◌+◌, ◌*◌, ◌≤◌, ◌<◌, ◌≡◌, ◌≢◌, refl, Bool, true, false, Option, none, some, List, [],
  ◌∷◌, ◌++◌, leb, ltb, ◌==◌, length, length-append, arith, lookup, take, drop, sum_of, Bool-cases,
  inl, inr, leb-false,
}
use nixstr_cache.Prelude.Result.{>>=-eq-err, ok, err, ◌>>=◌}
use nixstr_cache.Nhash.{hex}
use nixstr_cache.Manifest.{Manifest, Link, encode_manifest, max_safe}
use nixstr_cache.Writer.{
  out_of_fuel, State, Limits, Platform, Target, a_file, manifest_kind, logical_size_of, persist,
  persist_at, persist_manifest, flush_group, next_level, finish, collapse,
}
use nixstr_cache.Writer.Chunks.{file_chunk_bytes, read_chunks, build_links, build_file}
use nixstr_cache.Writer.Laws.{next_level-row, next_level-last}

persist_at-ends :
    (p : Platform) (limits : Limits) (o : Option ℕ) (bytes : List ℕ) (s : State)
    → persist_at p limits o bytes s ≢ err out_of_fuel
persist_at-ends p limits (some size) bytes s h = ground arith
persist_at-ends p limits none bytes s h = ground arith

logical_size_of-ends : (ls : List Link) (total : ℕ) → logical_size_of ls total ≢ err out_of_fuel
unfolding logical_size_of
logical_size_of-ends [] total h = cc
logical_size_of-ends (l ∷ ls) total h = elim (Bool-cases (leb (total + l.size) max_safe)) [
  | inl e ↦ logical_size_of-ends ls (total + l.size) (ground (arith, h, e))
  | inr e ↦ ground (arith, h, e)
]

length-drop_le : (n : ℕ) (bytes : List ℕ) → length (drop n bytes) ≤ length bytes
length-drop_le zero bytes = omega arith
length-drop_le (suc n) [] = omega arith
length-drop_le (suc n) (x ∷ xs) = omega (arith, length-drop_le n xs)

module _ (p : Platform) (limits : Limits) where
  persist_manifest-ends :
      (m : Manifest) (s : State) → persist_manifest p limits m s ≢ err out_of_fuel
  unfolding persist_manifest persist
  persist_manifest-ends m s h =
      let o = lookup (hex (p.sha256 (p.encode (encode_manifest m)))) s.inventory in
      elim (>>=-eq-err (persist_at p limits o (p.encode (encode_manifest m)) s) _ h) [
        | inl e ↦ persist_at-ends p limits o (p.encode (encode_manifest m)) s e
        | inr (_, _, k) ↦ elim (>>=-eq-err (logical_size_of m.links 0) _ k) [
          | inl e ↦ logical_size_of-ends m.links 0 e
          | inr (_, _, f) ↦ cc
        ]
      ]

  finish-ends :
      (kind : Target) (level : ℕ) (ls : List Link) (s : State)
      → finish p limits kind level ls s ≢ err out_of_fuel
  unfolding finish
  finish-ends kind level ls s h =
      let m : Manifest = record { kind = manifest_kind kind level; links = ls } in
      elim (>>=-eq-err (persist_manifest p limits m s) _ h) [
        | inl e ↦ persist_manifest-ends m s e
        | inr (_, _, f) ↦ cc
      ]

  flush_group-ends :
      (kind : Target) (level : ℕ) (ls : List Link) (s : State)
      → flush_group p limits kind level ls s ≢ err out_of_fuel
  unfolding flush_group
  flush_group-ends kind level ls s h =
      let m : Manifest = record { kind = manifest_kind kind level; links = ls } in
      elim (>>=-eq-err (persist_manifest p limits m s) _ h) [
        | inl e ↦ persist_manifest-ends m s e
        | inr (_, _, f) ↦ cc
      ]

  next_level-ends :
      (kind : Target) (level : ℕ) (rows group next : List Link) (s : State)
      → next_level p limits kind level rows group next s ≢ err out_of_fuel
  unfolding next_level
  next_level-ends kind level [] [] next s h = cc
  next_level-ends kind level [] (g ∷ group) next s h =
      elim (>>=-eq-err (flush_group p limits kind level (g ∷ group) s) _ h) [
        | inl e ↦ flush_group-ends kind level (g ∷ group) s e
        | inr (_, _, f) ↦ cc
      ]
  next_level-ends kind level (r ∷ rows) group next s h =
      row (ltb (length (group ++ r ∷ [])) limits.max_links)
        (next_level-ends kind level rows (group ++ r ∷ []) next s)
        (λ l u. next_level-ends kind level rows [] (next ++ l ∷ []) u) h
    where
      row :
          (v : Bool)
          → next_level p limits kind level rows (group ++ r ∷ []) next s ≢ err out_of_fuel
          → ((l : Link) (u : State)
              → next_level p limits kind level rows [] (next ++ l ∷ []) u ≢ err out_of_fuel)
          → (elim v [
            | true ↦ next_level p limits kind level rows (group ++ r ∷ []) next s
            | false ↦
                flush_group p limits kind level (group ++ r ∷ []) s
                >>= (λ (l, t). next_level p limits kind level rows [] (next ++ l ∷ []) t)
          ])
            ≢ err out_of_fuel
      row true a b h = a h
      row false a b h =
          elim (>>=-eq-err (flush_group p limits kind level (group ++ r ∷ []) s) _ h) [
            | inl e ↦ flush_group-ends kind level (group ++ r ∷ []) s e
            | inr ((l, u), _, f) ↦ b l u f
          ]

  -- A level has about half the links of the one before it, or fewer.
  next_level-length :
      (kind : Target) (level : ℕ) (rows group next : List Link) (s : State) {out : List Link}
      {t : State}
      → 2 ≤ limits.max_links
      → next_level p limits kind level rows group next s ≡ ok (out, t)
      → length out * 2 ≤ length next * 2 + length group + length rows + 1
  unfolding next_level
  next_level-length kind level [] [] next s {out} two h =
      let e : next ≡ out = ground (arith, h) in rw (← e) (omega arith)
  next_level-length kind level [] (g ∷ group) next s two h =
      let (l, _, o) = next_level-last p limits kind level g group next s h in
      rw o (omega (arith, length-append next (l ∷ [])))
  next_level-length kind level (r ∷ rows) group next s two h =
      elim (next_level-row p limits kind level r rows group next s h) [
        | inl k ↦ omega (
          arith,
          next_level-length kind level rows (group ++ r ∷ []) next s two k,
          length-append group (r ∷ []),
        )
        | inr (l, u, _, k, full) ↦ omega (
          arith,
          next_level-length kind level rows [] (next ++ l ∷ []) u two k,
          length-append group (r ∷ []),
          length-append next (l ∷ []),
          full,
          two,
        )
      ]

  -- With at least two links to a manifest, which the constructor of the writer demands, as much fuel
  -- as there are links, or one for none, is enough for `collapse` of a file or a directory.
  pub collapse-ends :
      (fuel : ℕ) (kind : Target) (level : ℕ) (ls : List Link) (s : State)
      → 2 ≤ limits.max_links
      → 1 ≤ fuel
      → length ls ≤ fuel
      → collapse p limits fuel kind level ls s ≢ err out_of_fuel
  unfolding collapse
  collapse-ends zero kind level ls s two some_fuel enough h = omega (arith, some_fuel)
  collapse-ends (suc fuel) kind level ls s two some_fuel enough h =
      turn (leb (length ls) limits.max_links) refl
        (λ next u a b. collapse-ends fuel kind (suc level) next u two a b) h
    where
      turn :
          (v : Bool)
          → leb (length ls) limits.max_links ≡ v
          → ((next : List Link) (u : State)
              → 1 ≤ fuel
              → length next ≤ fuel
              → collapse p limits fuel kind (suc level) next u ≢ err out_of_fuel)
          → (elim v [
            | true ↦ finish p limits kind level ls s
            | false ↦
                next_level p limits kind level ls [] [] s
                >>= (λ (next, t). collapse p limits fuel kind (suc level) next t)
          ])
            ≢ err out_of_fuel
      turn true e later h = finish-ends kind level ls s h
      turn false e later h = elim (>>=-eq-err (next_level p limits kind level ls [] [] s) _ h) [
        | inl f ↦ next_level-ends kind level ls [] [] s f
        | inr ((next, u), f, k) ↦
            later next u (omega (arith, leb-false _ _ e, two, enough))
              (omega (
                arith,
                next_level-length kind level ls [] [] s two f,
                leb-false _ _ e,
                two,
                enough,
              ))
              k
      ]

  persist-ends : (bytes : List ℕ) (s : State) → persist p limits bytes s ≢ err out_of_fuel
  unfolding persist
  persist-ends bytes s h =
      persist_at-ends p limits (lookup (hex (p.sha256 bytes)) s.inventory) bytes s h

  read_chunks-ends :
      (fuel : ℕ) (bytes : List ℕ) (s : State)
      → length bytes < fuel
      → read_chunks p limits fuel bytes s ≢ err out_of_fuel
  unfolding read_chunks
  read_chunks-ends zero bytes s enough h = omega (arith, enough)
  read_chunks-ends (suc fuel) [] s enough h = cc
  read_chunks-ends (suc fuel) (x ∷ xs) s enough h =
      elim (>>=-eq-err (persist p limits (take file_chunk_bytes (x ∷ xs)) s) _ h) [
        | inl e ↦ persist-ends (take file_chunk_bytes (x ∷ xs)) s e
        | inr ((b, t), _, k) ↦
            elim (>>=-eq-err (read_chunks p limits fuel (drop file_chunk_bytes (x ∷ xs)) t) _ k) [
              | inl e ↦
                  read_chunks-ends fuel (drop file_chunk_bytes (x ∷ xs)) t
                    (omega (arith, length-drop_le 2097151 xs, enough)) e
              | inr (_, _, f) ↦ cc
            ]
      ]

  build_links-ends :
      (ls : List Link) (s : State)
      → 2 ≤ limits.max_links
      → build_links p limits ls s ≢ err out_of_fuel
  unfolding build_links
  build_links-ends [] s two h = elim (>>=-eq-err (persist p limits [] s) _ h) [
    | inl e ↦ persist-ends [] s e
    | inr (_, _, f) ↦ cc
  ]
  build_links-ends (l ∷ []) s two h = cc
  build_links-ends (l ∷ m ∷ ls) s two h =
      collapse-ends (length (l ∷ m ∷ ls)) a_file 0 (l ∷ m ∷ ls) s two (omega arith) (omega arith) h

  -- With at least two links to a manifest, the fuel of `buildFile` is enough for every file: its loops
  -- over the chunks and over the levels end, with a result or with an error of the source.
  pub build_file-ends :
      (bytes : List ℕ) (size : ℕ) (s : State)
      → 2 ≤ limits.max_links
      → build_file p limits bytes size s ≢ err out_of_fuel
  unfolding build_file
  build_file-ends bytes size s two h =
      elim (>>=-eq-err (read_chunks p limits (suc (length bytes)) bytes s) _ h) [
        | inl e ↦ read_chunks-ends (suc (length bytes)) bytes s (omega arith) e
        | inr ((ls, t), _, k) ↦ elim (Bool-cases (sum_of (λ (l : Link). l.size) ls == size)) [
          | inl e ↦ build_links-ends ls t two (ground (arith, k, e))
          | inr e ↦ ground (arith, k, e)
        ]
      ]
