-- ===== src/Writer/Chunks.antt =====
-- src/hashtree/writer.ts, `buildFile` of a file on disk, which is cut into chunks. A read that returns less than was asked for is followed by others
-- until the chunk is full or the file ends.
use nixstr_cache.Prelude.{ℕ, zero, suc, none, List, [], ◌∷◌, ◌==◌, length, take, drop, sum_of}
use nixstr_cache.Prelude.Result.{Result, ok, err, ◌>>=◌, ◌>>◌, ensure}
use nixstr_cache.Manifest.{Link, raw_link}
use nixstr_cache.Writer.{
  Error, size_changed, out_of_fuel, Built, State, Limits, Platform, a_file, persist, collapse,
}

abbrev pub file_chunk_bytes : ℕ
file_chunk_bytes = 2097152

-- The link to a chunk.
abbrev pub raw_to : List ℕ → ℕ → Link
raw_to hash size = record {
  hash = hash;
  key = none;
  metadata = none;
  name = none;
  size = size;
  type = raw_link;
}

abbrev pub whole_blob : List ℕ → ℕ → Built
whole_blob hash size = record {
  blob = record { hash = hash; size = size };
  logical_size = size;
  type = raw_link;
  count = 1;
}

module _ (p : Platform) (limits : Limits) where
  -- The loop over the chunks of the bytes that are left.
  unfoldable pub read_chunks : ℕ → List ℕ → State → Result Error (List Link × State)
  read_chunks zero bytes s = err out_of_fuel
  read_chunks (suc fuel) [] s = ok ([], s)
  read_chunks (suc fuel) (x ∷ xs) s =
      persist p limits (take file_chunk_bytes (x ∷ xs)) s >>= (λ (b, t).
        read_chunks fuel (drop file_chunk_bytes (x ∷ xs)) t
        >>= (λ (ls, u). ok (raw_to b.hash b.size ∷ ls, u)))

  -- What is built of the links to the chunks: the empty blob, the only chunk, or a manifest.
  unfoldable pub build_links : List Link → State → Result Error (Built × State)
  build_links [] s = persist p limits [] s >>= (λ (b, t). ok (whole_blob b.hash b.size, t))
  build_links (l ∷ []) s = ok (whole_blob l.hash l.size, s)
  build_links (l ∷ m ∷ ls) s = collapse p limits (length (l ∷ m ∷ ls)) a_file 0 (l ∷ m ∷ ls) s

  -- `buildFile` of a file on disk, of which `size` was declared.
  unfoldable pub build_file : List ℕ → ℕ → State → Result Error (Built × State)
  build_file bytes size s = read_chunks (suc (length bytes)) bytes s >>= (λ (ls, t).
      ensure (sum_of (λ (l : Link). l.size) ls == size) size_changed >> build_links ls t)
