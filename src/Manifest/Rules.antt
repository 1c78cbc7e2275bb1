-- ===== src/Manifest/Rules.antt =====
-- src/protocol/hashtree.ts: the rules of each kind of manifest, and `decodeValidatedManifest`.
use nixstr_cache.Prelude.{
  ℕ, Bool, true, false, not, ◌&&◌, Option, none, some, List, [], ◌∷◌, leb, ◌==◌, is_some, length,
  all, Text, txt, text_eq, text_lt, has_char,
}
use nixstr_cache.Prelude.Result.{Result, ok, err, ◌>>=◌, ◌>>◌, ensure, require}
use nixstr_cache.SourcePlan.{is_empty}
use nixstr_cache.Manifest.Value.{Raw, str, Fields, cost, find_field, Codec}
use nixstr_cache.Manifest.{
  Error, Link, Kind, Limits, Validated, max_safe, wire_limit, malformed, not_canonical,
  decoded_limit, root_not_map, wrong_fields, links_not_array, links_limit, unsupported_type,
  bad_integer, bad_file_link, unsafe_name, unsorted_names, bad_fanout_link, bad_bounds, raw_link,
  file_link, directory_link, fanout_link, file, directory, fanout,
}
use nixstr_cache.Manifest.Decode.{
  exact_keys, uint, manifest_kind, as_object, as_array, decode_links,
}

unfoldable pub is_file_link : Link → Bool
is_file_link l = not (is_some l.name) && (elim l.type [
  | raw_link ↦ true
  | file_link ↦ true
  | directory_link ↦ false
  | fanout_link ↦ false
])

-- The loop over the links of a file manifest.
unfoldable pub check_file : List Link → Result Error (Unit {0})
unfolding is_file_link
check_file ls = ensure (all is_file_link ls) bad_file_link

abbrev pub name_or_empty : Option Text → Text
name_or_empty none = []
name_or_empty (some s) = s

unfoldable pub is_safe_name : Text → Bool
is_safe_name n =
    not (is_empty n)
    && not (text_eq n (txt "."))
    && not (text_eq n (txt ".."))
    && not (has_char b'/' n)
    && not (has_char 0 n)

-- The bounds in the metadata of a fanout link.
pub record Bounds : Type 0 where
  pub first : Text
  pub last : Text

abbrev pub as_text : Option Raw → Result Error Text
as_text (some (str s)) = ok s
as_text _ = err bad_bounds

module _ (c : Codec) where
  -- `byteCompare(a, b) < 0`.
  unfoldable pub byte_lt : Text → Text → Bool
  byte_lt a b = text_lt (c.utf8 a) (c.utf8 b)

  -- Whether a bound is open, or below a text.
  abbrev pub below : Option Text → Text → Bool
  below none n = true
  below (some p) n = byte_lt p n

  -- The loop over the links of a directory, behind the previous name.
  unfoldable pub check_directory : Option Text → List Link → Result Error (Unit {0})
  unfolding is_safe_name byte_lt
  check_directory previous [] = ok tt
  check_directory previous (l ∷ ls) =
      let name = name_or_empty l.name in
      ensure (is_safe_name name) unsafe_name
      >> (ensure (below previous name) unsorted_names >> check_directory (some name) ls)

  unfoldable pub is_fanout_link : Link → Bool
  is_fanout_link l = not (is_some l.name) && (elim l.type [
    | raw_link ↦ false
    | file_link ↦ false
    | directory_link ↦ true
    | fanout_link ↦ true
  ])

  -- The checks of the metadata of a fanout link.
  unfoldable pub check_bounds : Option Text → Fields → Result Error Bounds
  unfolding exact_keys uint byte_lt
  check_bounds prior fs = do
    ensure (exact_keys fs (txt "count" ∷ txt "first" ∷ txt "last" ∷ [])) wrong_fields
    n ← require (find_field (txt "count") fs) bad_integer
    count ← uint n
    first ← as_text (find_field (txt "first") fs)
    last ← as_text (find_field (txt "last") fs)
    ensure (not (count == 0) && not (byte_lt last first) && below prior first) bad_bounds
    ok (record { first = first; last = last })

  -- The loop over the links of a fanout, behind the previous upper bound.
  unfoldable pub check_fanout : Option Text → List Link → Result Error (Unit {0})
  unfolding is_fanout_link check_bounds
  check_fanout prior [] = ok tt
  check_fanout prior (l ∷ ls) = do
    ensure (is_fanout_link l) bad_fanout_link
    fs ← require l.metadata bad_fanout_link
    b ← check_bounds prior fs
    check_fanout (some (b.last)) ls

  unfoldable pub check_links : Kind → List Link → Result Error (Unit {0})
  unfolding check_file check_directory check_fanout
  check_links file ls = check_file ls
  check_links directory ls = check_directory none ls
  check_links fanout ls = check_fanout none ls

  -- `decodeValidatedManifest` of a decoded value.
  unfoldable pub validate : Limits → Raw → Result Error Validated
  unfolding exact_keys manifest_kind decode_links check_links
  validate limits raw = do
    ensure (leb (cost c.utf8 raw) limits.max_decoded_bytes) decoded_limit
    fs ← as_object root_not_map raw
    ensure (exact_keys fs (txt "l" ∷ txt "t" ∷ [])) wrong_fields
    l ← require (find_field (txt "l") fs) links_not_array
    items ← as_array l
    ensure (leb (length items) limits.max_links) links_limit
    t ← require (find_field (txt "t") fs) unsupported_type
    kind ← manifest_kind t
    links ← decode_links kind items
    check_links kind links
    ok (record {
      manifest = record { kind = kind; links = links };
      decoded_bytes = cost c.utf8 raw;
    })

  -- `decodeValidatedManifest`.
  unfoldable pub decode_validated : List ℕ → Limits → Result Error Validated
  unfolding validate
  decode_validated wire limits = do
    ensure (leb limits.max_wire_bytes max_safe && leb (length wire) limits.max_wire_bytes)
        wire_limit
    raw ← require (c.decode wire) malformed
    ensure (text_eq (c.encode raw) wire) not_canonical
    validate limits raw
