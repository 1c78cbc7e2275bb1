-- ===== src/Writer/Pieces.antt =====
-- src/hashtree/writer.ts, `buildFile`: the chunks of a file and what is built of them.
use nixstr_cache.Prelude.{
  ℕ, zero, suc, ◌+◌, ◌≤◌, ◌≡◌, ◌⊎◌, inl, inr, refl, sym, ap, ap₂, subst, ◌∙◌, Option, none, some,
  ◌&&◌, List, [], ◌∷◌, ◌++◌, map, append-nil, leb, ◌==◌, length, length-append, take, drop, Text,
  arith, lookup, All, sum_of, ==_iff,
}
use nixstr_cache.Prelude.Result.{ok, >>=-eq-ok, passes}
use nixstr_cache.Nhash.{hex}
use nixstr_cache.Manifest.{Manifest, Link, raw_link, encode_manifest}
use nixstr_cache.Resolver.Plan.{Chunk}
use nixstr_cache.Resolver.Stream.{joined}
use nixstr_cache.Resolver.Trees.{nothing, chunk}
use nixstr_cache.Writer.{
  size_changed, identity_changed, inventory_full, Blob, Built, State, Limits, Platform, a_file,
  logical_size_of, persist, persist_at, persist_manifest,
}
use nixstr_cache.Writer.Chunks.{
  file_chunk_bytes, raw_to, whole_blob, read_chunks, build_links, build_file,
}
use nixstr_cache.Writer.Laws.{HasAll, collapse_back}
use nixstr_cache.Writer.Spelling.{Spelled}
use nixstr_cache.Writer.Files.{IsBuilt, collapse-IsBuilt}

-- Bytes that stand under their digest.
abbrev pub HasBlobs : Platform → (Text → List ℕ) → List (List ℕ) → Type 0
HasBlobs p content bs = All (λ b. content (hex (p.sha256 b)) ≡ b) bs

take-drop : (n : ℕ) (bytes : List ℕ) → take n bytes ++ drop n bytes ≡ bytes
take-drop zero bytes = refl
take-drop (suc n) [] = refl
take-drop (suc n) (x ∷ xs) = ap (λ (t : List ℕ). x ∷ t) (take-drop n xs)

length-take_le : (n : ℕ) (bytes : List ℕ) → length (take n bytes) ≤ n
length-take_le zero bytes = omega arith
length-take_le (suc n) [] = omega arith
length-take_le (suc n) (x ∷ xs) = omega (arith, length-take_le n xs)

module _ (p : Platform) (limits : Limits) where
  abbrev pub chunk_of : List ℕ → Chunk
  chunk_of b = record { hash = hex (p.sha256 b); size = length b }

  abbrev linked : List ℕ → Link
  linked b = raw_to (p.sha256 b) (length b)

  persist-eq-ok :
      (bytes : List ℕ) (s : State) {b : Blob} {t : State}
      → persist p limits bytes s ≡ ok (b, t)
      → (b ≡ record { hash = p.sha256 bytes; size = length bytes })
        × (t.blobs ≡ bytes ∷ s.blobs)
        × (t.manifests ≡ s.manifests)
  unfolding persist
  persist-eq-ok bytes s {b} {t} h = persisted (lookup (hex (p.sha256 bytes)) s.inventory) h
    where
      persisted :
          (o : Option ℕ)
          → persist_at p limits o bytes s ≡ ok (b, t)
          → (b ≡ record { hash = p.sha256 bytes; size = length bytes })
            × (t.blobs ≡ bytes ∷ s.blobs)
            × (t.manifests ≡ s.manifests)
      persisted (some size) h =
          let (_, h1) = passes (size == length bytes) identity_changed _ h in ground (arith, h1)
      persisted none h =
          let (_, h1) =
            passes
              (leb (length s.inventory + 1) limits.max_inventory_blobs
                && leb (s.total + length bytes) limits.max_inventory_bytes)
              inventory_full _ h in
          ground (arith, h1)

  -- The chunks of some bytes: what they join to, and that none is empty or too long.
  pub record ArePieces (bytes : List ℕ) (ls : List Link) (s t : State) : Type 0 where
    pub pieces : List (List ℕ)
    pub links : ls ≡ map linked pieces
    pub whole : joined pieces ≡ bytes
    pub sized : All (λ b. (1 ≤ length b) × (length b ≤ file_chunk_bytes)) pieces
    pub kept :
        (content : Text → List ℕ)
        → HasBlobs p content t.blobs
        → HasBlobs p content pieces × HasBlobs p content s.blobs

  -- A chunk in front of others.
  ArePieces-cons :
      (piece left : List ℕ) (b : Blob) (ms ls : List Link) (s u v t : State)
      → (1 ≤ length piece) × (length piece ≤ file_chunk_bytes)
      → b ≡ record { hash = p.sha256 piece; size = length piece }
      → u.blobs ≡ piece ∷ s.blobs
      → ls ≡ raw_to b.hash b.size ∷ ms
      → t ≡ v
      → ArePieces left ms u v
      → ArePieces (piece ++ left) ls s t
  ArePieces-cons piece left b ms ls s u v t size blob logged e f rest = record {
    pieces = piece ∷ rest.pieces;
    links =
        e
        ∙ ap₂ (λ (l : Link) (r : List Link). l ∷ r) (ap (λ (y : Blob). raw_to y.hash y.size) blob)
            rest.links;
    whole = ap (λ (y : List ℕ). piece ++ y) rest.whole;
    sized = (size, rest.sized);
    kept = λ c k.
        let (x, y) = rest.kept c (subst (λ (z : State). HasBlobs p c z.blobs) f k) in
        let z = subst (HasBlobs p c) logged y in ((z.0, x), z.1);
  }

  read_chunks-ArePieces :
      (fuel : ℕ) (bytes : List ℕ) (s : State) {ls : List Link} {t : State}
      → read_chunks p limits fuel bytes s ≡ ok (ls, t)
      → ArePieces bytes ls s t
  unfolding read_chunks
  read_chunks-ArePieces zero bytes s h = cc
  read_chunks-ArePieces (suc fuel) [] s {ls} {t} h =
      let e : ls ≡ [] = ground (arith, h) in
      let f : t ≡ s = ground (arith, h) in
      record {
        pieces = [];
        links = e;
        whole = refl;
        sized = tt;
        kept = λ c k. (tt, subst (λ (v : State). HasBlobs p c v.blobs) f k);
      }
  read_chunks-ArePieces (suc fuel) (x ∷ xs) s {ls} {t} h =
      let ((b, u), e, h1) = >>=-eq-ok (persist p limits (take file_chunk_bytes (x ∷ xs)) s) _ h in
      let ((ms, v), f, last) =
        >>=-eq-ok (read_chunks p limits fuel (drop file_chunk_bytes (x ∷ xs)) u) _ h1 in
      let (blob, logged, _) = persist-eq-ok (take file_chunk_bytes (x ∷ xs)) s e in
      let listed : ls ≡ raw_to b.hash b.size ∷ ms = ground (arith, last) in
      let same : t ≡ v = ground (arith, last) in
      subst (λ (y : List ℕ). ArePieces y ls s t) (take-drop file_chunk_bytes (x ∷ xs))
        (ArePieces-cons (take file_chunk_bytes (x ∷ xs)) (drop file_chunk_bytes (x ∷ xs)) b ms ls s
          u v t (omega arith, length-take_le file_chunk_bytes (x ∷ xs)) blob logged listed same
          (read_chunks-ArePieces fuel (drop file_chunk_bytes (x ∷ xs)) u f))

  Spelled-linked :
      (tree : Text → Option Manifest) (pieces : List (List ℕ))
      → Spelled tree (map linked pieces) (map chunk_of pieces)
  Spelled-linked tree [] = (0, nothing)
  Spelled-linked tree (b ∷ bs) =
      let (n, q) = Spelled-linked tree bs in (length b + n, chunk refl q refl refl)

  persist_manifest-HasBlobs :
      (content : Text → List ℕ) (m : Manifest) (s : State) (b : Blob) (n : ℕ) (t : State)
      → persist_manifest p limits m s ≡ ok (b, n, t)
      → HasBlobs p content t.blobs
      → HasBlobs p content s.blobs
  unfolding persist_manifest
  persist_manifest-HasBlobs content m s b n t h known =
      let ((x, u), e, h1) = >>=-eq-ok (persist p limits (p.encode (encode_manifest m)) s) _ h in
      let (k, _, last) = >>=-eq-ok (logical_size_of m.links 0) _ h1 in
      let f : t.blobs ≡ u.blobs = ground (arith, last) in
      let (_, logged, _) = persist-eq-ok (p.encode (encode_manifest m)) s e in
      (subst (HasBlobs p content) (f ∙ logged) known).1

  -- A file that is one blob.
  pub record IsWhole (bytes : List ℕ) (b : Built) : Type 0 where
    pub type : b.type ≡ raw_link
    pub hash : (b.blob).hash ≡ p.sha256 bytes
    pub size : b.logical_size ≡ length bytes

  -- At most one chunk stands for itself, more are those of a manifest.
  abbrev pub Stands : (Text → Option Manifest) → List (List ℕ) → List ℕ → Built → Type 0
  Stands tree pieces bytes b =
      ((length pieces ≤ 1) × IsWhole bytes b)
      ⊎ ((2 ≤ length pieces) × IsBuilt tree (map chunk_of pieces) b)

  -- What `buildFile` makes of some bytes.
  pub record IsFileOf (tree : Text → Option Manifest) (content : Text → List ℕ) (bytes : List ℕ)
      (b : Built) : Type 0 where
    pub pieces : List (List ℕ)
    pub whole : joined pieces ≡ bytes
    pub sized : All (λ x. (1 ≤ length x) × (length x ≤ file_chunk_bytes)) pieces
    pub served : HasBlobs p content pieces
    pub stands : Stands tree pieces bytes b
    pub empty : length pieces ≡ 0 → content (hex (p.sha256 [])) ≡ []

  build_links-shape :
      (tree : Text → Option Manifest) (content : Text → List ℕ) (pieces : List (List ℕ)) (s : State)
      {b : Built} {t : State}
      → build_links p limits (map linked pieces) s ≡ ok (b, t)
      → HasAll p tree t.manifests
      → HasBlobs p content t.blobs
      → HasBlobs p content s.blobs
        × Stands tree pieces (joined pieces) b
        × (length pieces ≡ 0 → content (hex (p.sha256 [])) ≡ [])
  unfolding build_links
  build_links-shape tree content [] s {b} {t} h known held =
      let ((x, u), e, last) = >>=-eq-ok (persist p limits [] s) _ h in
      let (blob, logged, _) = persist-eq-ok [] s e in
      let f : t ≡ u = ground (arith, last) in
      let g : whole_blob x.hash x.size ≡ b = ground (arith, last) in
      let hashed : x.hash ≡ p.sha256 [] = ap (λ (y : Blob). y.hash) blob in
      let sized : x.size ≡ 0 = ap (λ (y : Blob). y.size) blob in
      (
        (subst (HasBlobs p content) (ap (λ (v : State). v.blobs) f ∙ logged) held).1,
        inl (
          omega arith,
          subst (IsWhole []) g (record { type = refl; hash = hashed; size = sized }),
        ),
        λ _. (subst (HasBlobs p content) (ap (λ (v : State). v.blobs) f ∙ logged) held).0,
      )
  build_links-shape tree content (x ∷ []) s {b} {t} h known held =
      let f : t ≡ s = ground (arith, h) in
      let g : whole_blob (p.sha256 x) (length x) ≡ b = ground (arith, h) in
      (
        subst (λ (v : State). HasBlobs p content v.blobs) f held,
        inl (
          omega arith,
          subst (IsWhole (x ++ [])) g (record {
            type = refl;
            hash = ap p.sha256 (sym (append-nil x));
            size = ap length (sym (append-nil x));
          }),
        ),
        λ q. absurd (omega (arith, q)),
      )
  build_links-shape tree content (x ∷ y ∷ xs) s h known held = (
    collapse_back p limits (λ t. HasBlobs p content t.blobs) (persist_manifest-HasBlobs content)
        (length (map linked (x ∷ y ∷ xs))) a_file 0 (map linked (x ∷ y ∷ xs)) s h held,
    inr (
      omega arith,
      collapse-IsBuilt p limits tree (length (map linked (x ∷ y ∷ xs))) 0 (map linked (x ∷ y ∷ xs))
          s (map chunk_of (x ∷ y ∷ xs)) h known (Spelled-linked tree (x ∷ y ∷ xs)),
    ),
    λ q. absurd (omega (arith, q)),
  )

  -- Where a tree holds every manifest and a store every blob that was persisted, what is built of a
  -- file stands for its bytes, whose number is the declared size: the file is cut into chunks of one
  -- byte to 2 MiB that join to it and are served under their digests; one chunk or none is built as
  -- the blob of the whole file, more as a manifest that consists of exactly these chunks, in order.
  pub build_file-IsFileOf :
      (tree : Text → Option Manifest) (content : Text → List ℕ) (bytes : List ℕ) (size : ℕ)
      (s : State) {b : Built} {t : State}
      → build_file p limits bytes size s ≡ ok (b, t)
      → HasAll p tree t.manifests
      → HasBlobs p content t.blobs
      → IsFileOf tree content bytes b × (size ≡ length bytes)
  unfolding build_file
  build_file-IsFileOf tree content bytes size s {b} {t} h known held =
      let ((ls, u), e, h1) = >>=-eq-ok (read_chunks p limits (suc (length bytes)) bytes s) _ h in
      let (sum, h2) = passes (sum_of (λ (l : Link). l.size) ls == size) size_changed _ h1 in
      let a = read_chunks-ArePieces (suc (length bytes)) bytes s e in
      let (later, shape, empty) =
        build_links-shape tree content a.pieces u
          (subst (λ (v : List Link). build_links p limits v u ≡ ok (b, t)) a.links h2) known held in
      let (served, _) = a.kept content later in
      (
        record {
          pieces = a.pieces;
          whole = a.whole;
          sized = a.sized;
          served = served;
          stands = subst (λ (v : List ℕ). Stands tree a.pieces v b) a.whole shape;
          empty = empty;
        },
        sym ((==_iff (sum_of (λ (l : Link). l.size) ls) size).0 sum)
            ∙ ap (sum_of (λ (l : Link). l.size)) a.links
            ∙ summed a.pieces
            ∙ ap length a.whole,
      )
    where
      summed :
          (ps : List (List ℕ)) → sum_of (λ (l : Link). l.size) (map linked ps) ≡ length (joined ps)
      summed [] = refl
      summed (x ∷ xs) = omega (arith, summed xs, length-append x (joined xs))
