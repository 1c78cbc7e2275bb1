-- ===== src/Manifest/Decode.antt =====
-- src/protocol/hashtree.ts: the fields of a decoded manifest and of its links.
use nixstr_cache.Prelude.{
  ℕ, Bool, true, false, ◌&&◌, Option, none, some, List, [], ◌∷◌, ◌++◌, leb, ◌==◌, if◌then◌else◌,
  is_some, length, all, any, Text, txt, text_eq, text_lt,
}
use nixstr_cache.Prelude.Result.{Result, ok, err, ◌>>=◌, ◌>>◌, ensure, require}
use nixstr_cache.Manifest.Value.{
  Raw, num, str, bin, arr, object, ext, Fields, json_fields, keys_of, find_field, item_list,
}
use nixstr_cache.Manifest.{
  Error, LinkType, Link, Kind, max_safe, links_not_array, unsupported_type, link_not_map,
  unknown_field, missing_field, bad_link_type, not_32_bytes, bad_metadata, bad_name, bad_integer,
  raw_link, file_link, directory_link, fanout_link, file, directory, fanout,
}

-- `keys().sort()` against the sorted allowed keys.
unfoldable pub insert_text : Text → List Text → List Text
insert_text t [] = t ∷ []
insert_text t (u ∷ us) = let rest = insert_text t us in if text_lt u t then u ∷ rest else t ∷ u ∷ us

unfoldable pub sort_texts : List Text → List Text
unfolding insert_text
sort_texts [] = []
sort_texts (t ∷ ts) = insert_text t (sort_texts ts)

unfoldable pub same_texts : List Text → List Text → Bool
same_texts [] [] = true
same_texts [] (_ ∷ _) = false
same_texts (_ ∷ _) [] = false
same_texts (t ∷ ts) (u ∷ us) = text_eq t u && same_texts ts us

-- `exactKeys`.
unfoldable pub exact_keys : Fields → List Text → Bool
unfolding sort_texts same_texts
exact_keys fs allowed = same_texts (sort_texts (keys_of fs)) (sort_texts allowed)

-- `uint`.
unfoldable pub uint : Raw → Result Error ℕ
uint (num n) = if leb n max_safe then ok n else err bad_integer
uint _ = err bad_integer

-- `bytes32`.
unfoldable pub bytes32 : Raw → Result Error (List ℕ)
bytes32 (bin b) = if length b == 32 then ok b else err not_32_bytes
bytes32 _ = err not_32_bytes

-- A field that may be absent.
abbrev pub perhaps : {A : Type 0} → (Raw → Result Error A) → Option Raw → Result Error (Option A)
perhaps f none = ok none
perhaps f (some v) = f v >>= (λ a. ok (some a))

-- `jsonMetadata`.
unfoldable pub json_metadata : Raw → Result Error Fields
json_metadata (object fs) = if json_fields fs then ok fs else err bad_metadata
json_metadata (ext fs) = if json_fields fs then ok fs else err bad_metadata
json_metadata _ = err bad_metadata

unfoldable pub link_name : Raw → Result Error Text
link_name (str s) = ok s
link_name _ = err bad_name

unfoldable pub link_type : Raw → Result Error LinkType
link_type (num n) =
    if n == 0
    then ok raw_link
    else if n == 1
    then ok file_link
    else if n == 2
    then ok directory_link
    else if n == 3
    then ok fanout_link
    else err bad_link_type
link_type _ = err bad_link_type

unfoldable pub manifest_kind : Raw → Result Error Kind
manifest_kind (num n) =
    if n == 1
    then ok file
    else if n == 2
    then ok directory
    else if n == 3
    then ok fanout
    else err unsupported_type
manifest_kind _ = err unsupported_type

abbrev pub as_object : Error → Raw → Result Error Fields
as_object e (object fs) = ok fs
as_object e (ext fs) = ok fs
as_object e _ = err e

abbrev pub as_array : Raw → Result Error (List Raw)
as_array (arr xs) = ok (item_list xs)
as_array _ = err links_not_array

abbrev pub required_keys : Kind → List Text
required_keys directory = txt "h" ∷ txt "n" ∷ txt "s" ∷ txt "t" ∷ []
required_keys file = txt "h" ∷ txt "s" ∷ txt "t" ∷ []
required_keys fanout = txt "h" ∷ txt "s" ∷ txt "t" ∷ []

-- `[...required, ...optional].includes(key)`.
unfoldable pub is_allowed : Kind → Text → Bool
is_allowed k t = any (text_eq t) (required_keys k ++ (txt "k" ∷ txt "m" ∷ []))

-- The links' loop body.
unfoldable pub decode_link : Kind → Raw → Result Error Link
unfolding uint bytes32 json_metadata link_name link_type is_allowed
decode_link k item = do
  fs ← as_object link_not_map item
  ensure (all (is_allowed k) (keys_of fs)) unknown_field
  ensure (all (λ key. is_some (find_field key fs)) (required_keys k)) missing_field
  t ← require (find_field (txt "t") fs) bad_link_type
  type ← link_type t
  h ← require (find_field (txt "h") fs) not_32_bytes
  hash ← bytes32 h
  key ← perhaps bytes32 (find_field (txt "k") fs)
  metadata ← perhaps json_metadata (find_field (txt "m") fs)
  name ← perhaps link_name (find_field (txt "n") fs)
  s ← require (find_field (txt "s") fs) bad_integer
  size ← uint s
  ok (record { hash = hash; key = key; metadata = metadata; name = name; size = size; type = type })

unfoldable pub decode_links : Kind → List Raw → Result Error (List Link)
unfolding decode_link
decode_links k [] = ok []
decode_links k (x ∷ xs) = decode_link k x >>= (λ l. decode_links k xs >>= (λ ls. ok (l ∷ ls)))
