-- ===== src/NarInfo.antt =====
-- src/protocol/narinfo.ts: the narinfo parser, the merge of signatures, and endorsements. `atob` and
-- `btoa` are the platform's, and `ed25519.verify` the library's: all three are parameters.
pub mod Ops
pub mod Lines
pub mod Merge
pub mod Fields
pub mod Endorsements
use nixstr_cache.Prelude.{
  ℕ, ◌+◌, ◌-◌, ◌≤◌, ◌≡◌, Bool, true, false, not, ◌&&◌, ◌||◌, Option, none, some, List, [], ◌∷◌,
  ◌++◌, map, ltb, leb, ◌==◌, if◌then◌else◌, is_some, length, take, drop, keep, any, all, Text, txt,
  text_eq, lookup, insert, has_char, split, strip, starts_with, cut, cut_pair, drop_last, ends_with,
  join, is_digit, is_lower, is_upper, is_space, decimal_value, decimal,
}
use nixstr_cache.Prelude.Result.{Result, ok, err, ◌>>=◌, ◌>>◌, ensure, require}

pub data Error : Type 0 where
  not_lf_terminated malformed_line sig_colons sig_name : Error
  sig_alphabet sig_base64 sig_canonical : Error
  unknown_field duplicate_field missing_field invalid_number too_large : Text → Error
  invalid_store_path invalid_url invalid_compression invalid_hash invalid_references : Error
  endorsement_key : Error

-- `NarInfoSignature`.
pub record Signature : Type 0 where
  pub name : Text
  pub encoded : Text
  pub bytes : List ℕ
  pub raw_line : Text

-- `NarInfo`; the fields of `semantics` are those below and the three optional ones.
pub record NarInfo : Type 0 where
  pub store_path : Text
  pub url : Text
  pub compression : Text
  pub file_hash : Text
  pub file_size : ℕ
  pub nar_hash : Text
  pub nar_size : ℕ
  pub references : List Text
  pub deriver : Option Text
  pub system : Option Text
  pub ca : Option Text
  pub signatures : List Signature
  pub fingerprint : Text
  pub raw_text : Text

-- `REQUIRED` and `OPTIONAL`.
abbrev pub required : List Text
required =
    txt "StorePath"
    ∷ txt "URL"
    ∷ txt "Compression"
    ∷ txt "FileHash"
    ∷ txt "FileSize"
    ∷ txt "NarHash"
    ∷ txt "NarSize"
    ∷ txt "References"
    ∷ []

abbrev pub optional : List Text
optional = txt "Deriver" ∷ txt "System" ∷ txt "CA" ∷ []

abbrev pub max_safe : ℕ
max_safe = 9007199254740991

-- `/^[A-Za-z0-9+/]+={0,2}$/`.
unfoldable pub is_base64_char : ℕ → Bool
unfolding is_digit is_lower is_upper
is_base64_char c = is_upper c || is_lower c || is_digit c || c == b'+' || c == b'/'

unfoldable pub base64_tail : Text → Bool
base64_tail [] = true
base64_tail (a ∷ []) = a == b'='
base64_tail (a ∷ b ∷ []) = a == b'=' && b == b'='
base64_tail (_ ∷ _ ∷ _ ∷ _) = false

unfoldable pub base64_body : Text → Bool
unfolding is_base64_char base64_tail
base64_body [] = true
base64_body (c ∷ s) = if is_base64_char c then base64_body s else base64_tail (c ∷ s)

unfoldable pub is_base64 : Text → Bool
unfolding base64_body
is_base64 [] = false
is_base64 (c ∷ s) = is_base64_char c && base64_body s

-- `/^[0-9a-z]+$/`.
unfoldable pub is_alphanumeric : Text → Bool
unfolding is_digit is_lower
is_alphanumeric s = leb 1 (length s) && all (λ c. is_digit c || is_lower c) s

-- `/^[0-9a-z]{32}-[^/\s]+$/`.
unfoldable pub is_reference : Text → Bool
unfolding is_alphanumeric is_space
is_reference s =
    length (take 32 s) == 32
    && is_alphanumeric (take 32 s)
    && starts_with (txt "-") (drop 32 s)
    && leb 1 (length (drop 33 s))
    && all (λ c. not (c == b'/' || is_space c)) (drop 33 s)

unfoldable pub is_store_path : Text → Bool
unfolding is_reference
is_store_path s = elim (strip (txt "/nix/store/") s) [ none ↦ false | some r ↦ is_reference r ]

unfoldable pub is_url : Text → Bool
is_url s =
    leb 1 (length s)
    && not (starts_with (txt "/") s)
    && not (has_char 0x5c s)
    && not (any (text_eq (txt "..")) (split b'/' s))

unfoldable pub is_compression : Text → Bool
unfolding is_space
is_compression s = leb 1 (length s) && not (any is_space s)

unfoldable pub is_sha256 : Text → Bool
unfolding is_alphanumeric
is_sha256 s = elim (strip (txt "sha256:") s) [ none ↦ false | some r ↦ is_alphanumeric r ]

unfoldable pub unsigned_integer : Text → Text → Result Error ℕ
unfolding is_digit
unsigned_integer value field = do
  ensure (leb 1 (length value) && all is_digit value) (invalid_number field)
  ensure (leb (decimal_value 0 value) max_safe) (too_large field)
  ok (decimal_value 0 value)

-- The characters that a signature's name may not have.
unfoldable pub is_name_char : ℕ → Bool
unfolding is_space
is_name_char c = not (is_space c || ltb c 32 || c == 127)

-- What one line holds.
pub data Line : Type 0 where
  sig : Signature → Line
  scalar : Text → Text → Line

-- What the loop has collected.
pub record Collected : Type 0 where
  pub scalars : List (Text × Text)
  pub signatures : List Signature

module _ (atob : Text → Option (List ℕ)) (btoa : List ℕ → Text) where
  unfoldable pub canonical_base64 : Text → ℕ → Result Error (List ℕ)
  canonical_base64 value bytes = do
    ensure (is_base64 value) sig_alphabet
    decoded ← require (atob value) sig_base64
    ensure (length decoded == bytes && text_eq (btoa decoded) value) sig_canonical
    ok decoded

  -- The branch for `Sig`.
  unfoldable pub parse_sig : Text → Text → Result Error Signature
  unfolding canonical_base64
  parse_sig line value = do
    parts ← require (cut b':' value) sig_colons
    ensure (leb 1 (length (parts.0)) && not (has_char b':' (parts.1))) sig_colons
    ensure (all is_name_char (parts.0)) sig_name
    bytes ← canonical_base64 (parts.1) 64
    ok (record { name = parts.0; encoded = parts.1; bytes = bytes; raw_line = line })

  unfoldable pub parse_line : Text → Result Error Line
  unfolding parse_sig
  parse_line line = do
    parts ← require (cut_pair b':' b' ' line) malformed_line
    ensure (leb 1 (length (parts.0))) malformed_line
    (if text_eq (parts.0) (txt "Sig")
        then parse_sig line (parts.1) >>= (λ s. ok (sig s))
        else (ensure (any (text_eq (parts.0)) required || any (text_eq (parts.0)) optional)
              (unknown_field (parts.0))
            >> ok (scalar (parts.0) (parts.1))))

  unfoldable pub add_line : Collected → Line → Result Error Collected
  add_line c (sig s) = ok (record c { signatures = c.signatures ++ s ∷ [] })
  add_line c (scalar field value) =
      if is_some (lookup field c.scalars)
      then err (duplicate_field field)
      else ok (record c { scalars = insert field value c.scalars })

  -- The loop over the lines.
  unfoldable pub collect : Collected → List Text → Result Error Collected
  unfolding parse_line add_line
  collect c [] = ok c
  collect c (line ∷ lines) = parse_line line >>= (λ l. add_line c l >>= (λ c'. collect c' lines))

  unfoldable pub is_lf_text : Text → Bool
  is_lf_text text = ends_with 10 text && not (has_char 13 text) && not (has_char 0 text)

  unfoldable pub check_required : List Text → List (Text × Text) → Result Error (Unit {0})
  check_required [] scalars = ok tt
  check_required (f ∷ fs) scalars =
      ensure (is_some (lookup f scalars)) (missing_field f) >> check_required fs scalars

  -- `scalars.get(field)!`.
  unfoldable pub scalar_of : Text → List (Text × Text) → Text
  scalar_of field scalars = elim (lookup field scalars) [ none ↦ [] | some v ↦ v ]

  unfoldable pub fingerprint_of : Text → Text → ℕ → List Text → Text
  fingerprint_of store_path nar_hash nar_size references =
      txt "1;"
      ++ (store_path
          ++ (txt ";"
              ++ (nar_hash
                  ++ (txt ";" ++ (decimal nar_size ++ (txt ";" ++ join (txt ",") references))))))

  -- Everything after the loop.
  unfoldable pub assemble : Text → Collected → Result Error NarInfo
  unfolding check_required scalar_of fingerprint_of
  assemble text c = do
    check_required required c.scalars
    let store_path = scalar_of (txt "StorePath") c.scalars
    let url = scalar_of (txt "URL") c.scalars
    let compression = scalar_of (txt "Compression") c.scalars
    let file_hash = scalar_of (txt "FileHash") c.scalars
    let nar_hash = scalar_of (txt "NarHash") c.scalars
    ensure (is_store_path store_path) invalid_store_path
    ensure (is_url url) invalid_url
    ensure (is_compression compression) invalid_compression
    ensure (is_sha256 file_hash && is_sha256 nar_hash) invalid_hash
    file_size ← unsigned_integer (scalar_of (txt "FileSize") c.scalars) (txt "FileSize")
    nar_size ← unsigned_integer (scalar_of (txt "NarSize") c.scalars) (txt "NarSize")
    let references =
        keep (λ r. leb 1 (length r)) (split b' ' (scalar_of (txt "References") c.scalars))
    ensure (all is_reference references) invalid_references
    ok (record {
      store_path = store_path;
      url = url;
      compression = compression;
      file_hash = file_hash;
      file_size = file_size;
      nar_hash = nar_hash;
      nar_size = nar_size;
      references = references;
      deriver = lookup (txt "Deriver") c.scalars;
      system = lookup (txt "System") c.scalars;
      ca = lookup (txt "CA") c.scalars;
      signatures = c.signatures;
      fingerprint = fingerprint_of store_path nar_hash nar_size references;
      raw_text = text;
    })

  -- `parseNarInfo`.
  unfoldable pub parse : Text → Result Error NarInfo
  unfolding is_lf_text collect assemble
  parse text = do
    ensure (is_lf_text text) not_lf_terminated
    c ← collect (record { scalars = []; signatures = [] }) (split 10 (drop_last text))
    assemble text c
