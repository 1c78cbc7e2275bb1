-- ===== src/Manifest.antt =====
-- src/protocol/hashtree.ts: Hashtree manifests, their encoding and the checks of a decoded one. The
-- MessagePack library and the UTF-8 encoder are parameters.
pub mod Value
pub mod Decode
pub mod Rules
pub mod Shape
mod Links
mod Checks
pub mod Sound
mod Encoded
pub mod RoundTrip
use nixstr_cache.Prelude.{
  ℕ, ◌+◌, ◌≡◌, Bool, true, false, not, ◌&&◌, ◌||◌, Option, none, some, List, [], ◌∷◌, ◌++◌, map,
  ltb, leb, ◌==◌, if◌then◌else◌, is_some, length, all, any, Text, txt, text_eq, text_lt, has_char,
}
use nixstr_cache.Prelude.Result.{Result, ok, err, ◌>>=◌, ◌>>◌, ensure, require}
use nixstr_cache.SourcePlan.{is_empty}
use Value.{
  Raw, null, bool, num, str, bin, arr, object, ext, Items, nil, cons, Fields, end, field, cost,
  json_fields, keys_of, find_field, item_list, Codec,
}

-- The error texts of `ManifestDataError`, less the labels.
pub data Error : Type 0 where
  wire_limit malformed not_canonical decoded_limit root_not_map wrong_fields : Error
  links_not_array links_limit unsupported_type link_not_map unknown_field missing_field : Error
  bad_link_type not_32_bytes bad_metadata bad_name bad_integer : Error
  bad_file_link unsafe_name unsorted_names bad_fanout_link bad_bounds : Error

-- `LinkType`: 0, 1, 2 and 3.
pub data LinkType : Type 0 where
  raw_link file_link directory_link fanout_link : LinkType

-- `ManifestLink`.
pub record Link : Type 0 where
  pub hash : List ℕ
  pub key : Option (List ℕ)
  pub metadata : Option Fields
  pub name : Option Text
  pub size : ℕ
  pub type : LinkType

pub data Kind : Type 0 where
  file directory fanout : Kind

-- `Manifest`.
pub record Manifest : Type 0 where
  pub kind : Kind
  pub links : List Link

-- `ManifestLimits`.
pub record Limits : Type 0 where
  pub max_wire_bytes : ℕ
  pub max_decoded_bytes : ℕ
  pub max_links : ℕ

-- `ValidatedManifest`.
pub record Validated : Type 0 where
  pub manifest : Manifest
  pub decoded_bytes : ℕ

abbrev pub max_safe : ℕ
max_safe = 9007199254740991

abbrev pub type_number : LinkType → ℕ
type_number raw_link = 0
type_number file_link = 1
type_number directory_link = 2
type_number fanout_link = 3

abbrev pub kind_number : Kind → ℕ
kind_number file = 1
kind_number directory = 2
kind_number fanout = 3

-- A field of an object literal that may be left out.
abbrev pub optional : Text → Option Raw → Fields → Fields
optional k none fs = fs
optional k (some v) fs = field k v fs

abbrev pub bin_of : Option (List ℕ) → Option Raw
bin_of none = none
bin_of (some b) = some (bin b)

abbrev pub object_of : Option Fields → Option Raw
object_of none = none
object_of (some fs) = some (object fs)

abbrev pub str_of : Option Text → Option Raw
str_of none = none
str_of (some s) = some (str s)

unfoldable pub encode_link : Link → Raw
encode_link l = object (
    field (txt "h") (bin l.hash) (
      optional (txt "k") (bin_of l.key) (
        optional (txt "m") (object_of l.metadata) (
          optional (txt "n") (str_of l.name)
            (field (txt "s") (num l.size) (field (txt "t") (num (type_number l.type)) end))))))

unfoldable pub encode_links : List Link → Items
unfolding encode_link
encode_links [] = nil
encode_links (l ∷ ls) = cons (encode_link l) (encode_links ls)

-- `encodeManifest`, up to the bytes.
unfoldable pub encode_manifest : Manifest → Raw
unfolding encode_links
encode_manifest m =
    object (
      field (txt "l") (arr (encode_links m.links)) (field (txt "t") (num (kind_number m.kind)) end))
