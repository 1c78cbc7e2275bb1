-- ===== src/NarInfo/Ops.antt =====
-- src/protocol/narinfo.ts: comparing two records, appending signatures, and endorsements.
use nixstr_cache.Prelude.{
  ℕ, suc, Bool, true, false, not, ◌&&◌, Option, none, some, List, [], ◌∷◌, ◌++◌, ◌==◌,
  if◌then◌else◌, is_some, length, keep, Text, text_eq, drop_last,
}
use nixstr_cache.Prelude.Result.{Result, ok, err, ◌>>=◌}
use nixstr_cache.NarInfo.{Error, endorsement_key, Signature, NarInfo}

-- `NarInfoField`, in the order of `SEMANTIC_FIELDS`.
pub data Field : Type 0 where
  store_path url compression file_hash file_size nar_hash nar_size references : Field
  deriver system ca : Field

abbrev pub semantic_fields : List Field
semantic_fields =
    store_path ∷ url ∷ compression ∷ file_hash ∷ file_size ∷ nar_hash ∷ nar_size ∷ references
    ∷ deriver ∷ system ∷ ca ∷ []

-- `string | number | readonly string[] | undefined`.
pub data Value : Type 0 where
  text : Text → Value
  number : ℕ → Value
  texts : List Text → Value
  undefined : Value

abbrev pub of_option : Option Text → Value
of_option none = undefined
of_option (some t) = text t

-- `narinfo.semantics[field]`.
unfoldable pub semantic : NarInfo → Field → Value
semantic n store_path = text n.store_path
semantic n url = text n.url
semantic n compression = text n.compression
semantic n file_hash = text n.file_hash
semantic n file_size = number n.file_size
semantic n nar_hash = text n.nar_hash
semantic n nar_size = number n.nar_size
semantic n references = texts n.references
semantic n deriver = of_option n.deriver
semantic n system = of_option n.system
semantic n ca = of_option n.ca

unfoldable pub same_texts : List Text → List Text → Bool
same_texts [] [] = true
same_texts [] (_ ∷ _) = false
same_texts (_ ∷ _) [] = false
same_texts (a ∷ xs) (b ∷ ys) = text_eq a b && same_texts xs ys

-- The test in `differingNarInfoFields`, negated.
unfoldable pub same_value : Value → Value → Bool
unfolding same_texts
same_value (text a) (text b) = text_eq a b
same_value (number a) (number b) = a == b
same_value (texts a) (texts b) = same_texts a b
same_value undefined undefined = true
same_value _ _ = false

unfoldable pub differing_fields : NarInfo → NarInfo → List Field
differing_fields a b =
    keep (λ field. not (same_value (semantic a field) (semantic b field))) semantic_fields

-- `lines.map((line) => `\n${line}`).join("")`.
unfoldable pub appended : List Text → Text
appended [] = []
appended (l ∷ ls) = 10 ∷ (l ++ appended ls)

-- `appendNarInfoSignatures`.
unfoldable pub append_signatures : NarInfo → List Text → Text
unfolding appended
append_signatures winner [] = winner.raw_text
append_signatures winner (l ∷ ls) = drop_last winner.raw_text ++ (appended (l ∷ ls) ++ 10 ∷ [])

-- `NixSignatureKey`, and `Endorsement` with its optional key index.
pub record SignatureKey : Type 0 where
  pub name : Text
  pub encoded : Text
  pub bytes : List ℕ

pub record Endorsement : Type 0 where
  pub signature_index : ℕ
  pub endorsed : Bool
  pub key_index : Option ℕ

module _ (verify : List ℕ → List ℕ → List ℕ → Bool) (utf8 : Text → List ℕ) where
  -- The inner loop: the first key that verifies the signature.
  unfoldable pub find_key : List ℕ → List ℕ → ℕ → List SignatureKey → Result Error (Option ℕ)
  find_key message signature index [] = ok none
  find_key message signature index (k ∷ ks) =
      let rest = find_key message signature (suc index) ks in
      if not (length k.bytes == 32)
      then err endorsement_key
      else if verify signature message k.bytes
      then ok (some index)
      else rest

  unfoldable pub classify_from :
      List ℕ → List SignatureKey → ℕ → List Signature → Result Error (List Endorsement)
  unfolding find_key
  classify_from message keys index [] = ok []
  classify_from message keys index (s ∷ ss) = do
    found ← find_key message s.bytes 0 keys
    rest ← classify_from message keys (suc index) ss
    ok (record { signature_index = index; endorsed = is_some found; key_index = found } ∷ rest)

  -- `classifyEndorsements`.
  unfoldable pub classify : NarInfo → List SignatureKey → Result Error (List Endorsement)
  unfolding classify_from
  classify n keys = classify_from (utf8 n.fingerprint) keys 0 n.signatures
