-- ===== src/Nhash.antt =====
-- src/protocol/nhash.ts: plaintext Hashtree roots as nhash texts. The Bech32 functions are those of
-- `@scure/base`, and `toLowerCase` is the platform's: both are parameters.
pub mod Laws
use nixstr_cache.Prelude.{
  ℕ, zero, suc, ◌+◌, ◌/◌, ◌%◌, ◌≡◌, Bool, true, false, not, ◌&&◌, ◌||◌, Option, none, some, List,
  [], ◌∷◌, ◌++◌, ltb, leb, ◌==◌, if◌then◌else◌, length, take, drop, keep, any, Text, txt, text_eq,
}
use nixstr_cache.Prelude.Result.{Result, ok, err, ◌>>=◌, ◌>>◌, ensure, require}

pub data Error : Type 0 where
  root_length not_lowercase bad_encoding wrong_prefix bad_padding not_canonical : Error
  truncated_header truncated_value unknown_type root_count key_record : Error
  unsupported_encryption : Error
  -- The answer of the loop when its fuel runs out.
  out_of_fuel : Error

-- `bech32.encode`, `decode`, `toWords` and `fromWords`; a `none` is an error that is thrown.
pub record Bech32 : Type 0 where
  pub encode : Text → List ℕ → Text
  pub decode : Text → Option (Text × List ℕ)
  pub to_words : List ℕ → List ℕ
  pub from_words : List ℕ → Option (List ℕ)

pub record PlaintextRoot : Type 0 where
  pub bytes : List ℕ
  pub hex : Text
  pub nhash : Text

-- A TLV record.
pub record Entry : Type 0 where
  pub type : ℕ
  pub value : List ℕ

abbrev hex_digit : ℕ → ℕ
hex_digit n = if ltb n 10 then b'0' + n else 87 + n

-- `byte.toString(16).padStart(2, "0")` for each byte.
unfoldable pub hex : List ℕ → Text
hex [] = []
hex (b ∷ bs) = hex_digit (b / 16) ∷ hex_digit (b % 16) ∷ hex bs

-- The loop over the payload: each round takes two bytes at the least.
unfoldable pub parse_entries : ℕ → List ℕ → Result Error (List Entry)
parse_entries zero payload = err out_of_fuel
parse_entries (suc fuel) [] = ok []
parse_entries (suc fuel) (t ∷ []) = err truncated_header
parse_entries (suc fuel) (t ∷ n ∷ rest) =
    ensure (leb n (length rest)) truncated_value
    >> (parse_entries fuel (drop n rest)
        >>= (λ more. ok (record { type = t; value = take n rest } ∷ more)))

abbrev pub of_type : ℕ → List Entry → List Entry
of_type t = keep (λ e. e.type == t)

-- The one value of a list of roots that has the length of a hash.
unfoldable pub single_root : List Entry → Option (List ℕ)
single_root [] = none
single_root (r ∷ []) = if length r.value == 32 then some r.value else none
single_root (_ ∷ _ ∷ _) = none

-- The checks on the records.
unfoldable pub root_of : List Entry → Result Error (List ℕ)
unfolding single_root
root_of entries = do
  ensure (not (any (λ e. not (e.type == 0) && not (e.type == 5)) entries)) unknown_type
  root ← require (single_root (of_type 0 entries)) root_count
  ensure
      (not (
        any (λ (e : Entry). not (length e.value == 32)) (of_type 5 entries)
        || ltb 1 (length (of_type 5 entries))))
      key_record
  ensure (not (length (of_type 5 entries) == 1)) unsupported_encryption
  ok root

module _ (b : Bech32) (lower : Text → Text) where
  open b use {encode, decode, to_words, from_words}

  -- `encodePlaintextNhash`.
  unfoldable pub encode_nhash : List ℕ → Result Error Text
  encode_nhash root = do
    ensure (length root == 32) root_length
    ok (encode (txt "nhash") (to_words (0 ∷ 32 ∷ root)))

  -- `decodePlaintextNhash`.
  unfoldable pub decode_nhash : Text → Result Error PlaintextRoot
  unfolding hex parse_entries root_of
  decode_nhash value = do
    ensure (leb (length value) 200 && text_eq value (lower value)) not_lowercase
    decoded ← require (decode value) bad_encoding
    ensure (text_eq (decoded.0) (txt "nhash")) wrong_prefix
    payload ← require (from_words (decoded.1)) bad_padding
    ensure (text_eq (encode (txt "nhash") (to_words payload)) value) not_canonical
    entries ← parse_entries (suc (length payload)) payload
    root ← root_of entries
    ok (record { bytes = root; hex = hex root; nhash = value })
