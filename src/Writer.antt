-- ===== src/Writer.antt =====
-- src/hashtree/writer.ts, `#build`: blobs, chunks and manifests. SHA-256 and MessagePack are
-- parameters. The tables `work` and `inventory` are lists in the order of their rows, and a link is
-- kept as it is where the source stores its JSON. The files of the blobs, the owners, the counters and
-- the import of a base are left out.
pub mod Chunks
pub mod Routes
pub mod Spelling
pub mod Laws
pub mod Levels
pub mod Files
pub mod Fuel
pub mod Roots
pub mod Pieces
pub mod ReadBack
use nixstr_cache.Prelude.{
  ℕ, zero, suc, ◌+◌, ◌≡◌, Bool, true, false, not, ◌&&◌, Option, none, some, List, [], ◌∷◌, ◌++◌,
  leb, ltb, ◌==◌, if◌then◌else◌, length, Text, txt, lookup, sum_of,
}
use nixstr_cache.Prelude.Result.{Result, ok, err, ◌>>=◌, ◌>>◌, ensure}
use nixstr_cache.Nhash.{hex}
use nixstr_cache.Manifest.Value.{Raw, num, str, Fields, field, end, find_field}
use nixstr_cache.Manifest.{
  str_of, Manifest, Kind, file, directory, fanout, Link, LinkType, raw_link, file_link,
  directory_link, fanout_link, encode_manifest, max_safe,
}

pub data Error : Type 0 where
  identity_changed inventory_full unsafe_size size_changed out_of_fuel : Error

-- `CandidateBlob`, less its path, which its hash determines.
pub record Blob : Type 0 where
  pub hash : List ℕ
  pub size : ℕ

-- `Built`, less the bytes.
pub record Built : Type 0 where
  pub blob : Blob
  pub logical_size : ℕ
  pub type : LinkType
  pub count : ℕ

-- The table `inventory` and the total. The two logs, which the source has not, are the bytes and the
-- manifests that were persisted, newest first.
pub record State : Type 0 where
  pub inventory : List (Text × ℕ)
  pub total : ℕ
  pub blobs : List (List ℕ)
  pub manifests : List Manifest

pub record Limits : Type 0 where
  pub max_links : ℕ
  pub max_inventory_blobs : ℕ
  pub max_inventory_bytes : ℕ

pub record Platform : Type 0 where
  pub sha256 : List ℕ → List ℕ
  pub encode : Raw → List ℕ

-- What `collapse` builds.
pub data Target : Type 0 where
  a_file a_directory : Target

abbrev pub manifest_kind : Target → ℕ → Kind
manifest_kind a_file level = file
manifest_kind a_directory zero = directory
manifest_kind a_directory (suc level) = fanout

abbrev pub type_of : Kind → LinkType
type_of file = file_link
type_of directory = directory_link
type_of fanout = fanout_link

-- `link.metadata?.count ?? 1`.
abbrev pub number_or_one : Option Raw → ℕ
number_or_one (some (num n)) = n
number_or_one _ = 1

abbrev pub count_in : Option Fields → ℕ
count_in none = 1
count_in (some fs) = number_or_one (find_field (txt "count") fs)

-- `link.metadata?.[key] ?? link.name`, as the value of a field.
abbrev pub bound_in : Text → Option Fields → Option Text → Option Raw
bound_in key none name = str_of name
bound_in key (some fs) name = elim (find_field key fs) [ none ↦ str_of name | some v ↦ some v ]

abbrev pub field_of : Text → Option Raw → Fields → Fields
field_of key none fs = fs
field_of key (some v) fs = field key v fs

abbrev pub last_of : Link → List Link → Link
last_of l [] = l
last_of l (m ∷ ms) = last_of m ms

-- The metadata of the link to a group of a directory.
abbrev pub range_of : List Link → Option Fields
range_of [] = none
range_of (l ∷ ls) =
    let last = last_of l ls in
    some (
      field (txt "count") (num (sum_of (λ (x : Link). count_in x.metadata) (l ∷ ls))) (
        field_of (txt "first") (bound_in (txt "first") l.metadata l.name)
          (field_of (txt "last") (bound_in (txt "last") last.metadata last.name) end)))

abbrev pub metadata_of : Target → List Link → Option Fields
metadata_of a_file ls = none
metadata_of a_directory ls = range_of ls

-- `logicalSize`.
unfoldable pub logical_size_of : List Link → ℕ → Result Error ℕ
logical_size_of [] total = ok total
logical_size_of (l ∷ ls) total =
    ensure (leb (total + l.size) max_safe) unsafe_size >> logical_size_of ls (total + l.size)

module _ (p : Platform) (limits : Limits) where
  -- `persist` of bytes whose hash the inventory has, or has not.
  abbrev pub persist_at : Option ℕ → List ℕ → State → Result Error (Blob × State)
  persist_at (some size) bytes s =
      ensure (size == length bytes) identity_changed
      >> ok (
        record { hash = p.sha256 bytes; size = length bytes },
        record s { blobs = bytes ∷ s.blobs },
      )
  persist_at none bytes s =
      ensure
        (leb (length s.inventory + 1) limits.max_inventory_blobs
          && leb (s.total + length bytes) limits.max_inventory_bytes)
        inventory_full
      >> ok (
        record { hash = p.sha256 bytes; size = length bytes },
        record s {
          inventory = (hex (p.sha256 bytes), length bytes) ∷ s.inventory;
          total = s.total + length bytes;
          blobs = bytes ∷ s.blobs;
        },
      )

  unfoldable pub persist : List ℕ → State → Result Error (Blob × State)
  persist bytes s = persist_at (lookup (hex (p.sha256 bytes)) s.inventory) bytes s

  -- `persist(encodeManifest(manifest))`, with its logical size.
  unfoldable pub persist_manifest : Manifest → State → Result Error (Blob × ℕ × State)
  persist_manifest m s = persist (p.encode (encode_manifest m)) s >>= (λ (b, t).
      logical_size_of m.links 0 >>= (λ n. ok (b, n, record t { manifests = m ∷ t.manifests })))

  -- `flushGroup`: the link to the manifest of a group.
  unfoldable pub flush_group : Target → ℕ → List Link → State → Result Error (Link × State)
  flush_group kind level ls s =
      persist_manifest (record { kind = manifest_kind kind level; links = ls }) s >>= (λ (b, n, t).
        ok (
          record {
            hash = b.hash;
            key = none;
            metadata = metadata_of kind ls;
            name = none;
            size = n;
            type = type_of (manifest_kind kind level);
          },
          t,
        ))

  -- The loop over the rows of a level, with the current group and the links of the next level.
  unfoldable pub next_level :
      Target → ℕ → List Link → List Link → List Link → State → Result Error (List Link × State)
  next_level kind level [] [] next s = ok (next, s)
  next_level kind level [] (g ∷ group) next s =
      flush_group kind level (g ∷ group) s >>= (λ (l, t). ok (next ++ l ∷ [], t))
  next_level kind level (r ∷ rows) group next s =
      elim (ltb (length (group ++ r ∷ [])) limits.max_links) [
        | true ↦ next_level kind level rows (group ++ r ∷ []) next s
        | false ↦
            flush_group kind level (group ++ r ∷ []) s
            >>= (λ (l, t). next_level kind level rows [] (next ++ l ∷ []) t)
      ]

  -- The last level.
  unfoldable pub finish : Target → ℕ → List Link → State → Result Error (Built × State)
  finish kind level ls s =
      persist_manifest (record { kind = manifest_kind kind level; links = ls }) s >>= (λ (b, n, t).
        ok (
          record {
            blob = b;
            logical_size = n;
            type = type_of (manifest_kind kind level);
            count = elim kind [
              | a_file ↦ 1
              | a_directory ↦ sum_of (λ (x : Link). count_in x.metadata) ls
            ];
          },
          t,
        ))

  -- `collapse`, on fuel: a level that is not the last has more links than the next one.
  unfoldable pub collapse : ℕ → Target → ℕ → List Link → State → Result Error (Built × State)
  collapse zero kind level ls s = err out_of_fuel
  collapse (suc fuel) kind level ls s = elim (leb (length ls) limits.max_links) [
    | true ↦ finish kind level ls s
    | false ↦
        next_level kind level ls [] [] s >>= (λ (next, t). collapse fuel kind (suc level) next t)
  ]
