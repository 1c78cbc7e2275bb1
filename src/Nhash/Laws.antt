-- ===== src/Nhash/Laws.antt =====
-- src/protocol/nhash.ts: encoding against decoding, and the fuel of the loop over the records.
use nixstr_cache.Prelude.{
  ℕ, zero, suc, ◌≤◌, ◌<◌, ◌≡◌, ◌≢◌, refl, sym, ap, ap₂, append-nil, ==_iff, subst, ◌∙◌, Bool, true,
  false, not, ◌&&◌, ◌||◌, Option, none, some, List, [], ◌∷◌, ◌++◌, arith, ltb, leb, leb→le, ◌==◌,
  length, take, drop, any, Text, txt, text_eq, text_eq_refl, text_eq_sound,
}
use nixstr_cache.Prelude.Result.{ok, err, ensure, require, >>=-eq-ok, ensure-eq-ok, ok_injective}
use nixstr_cache.Nhash.{
  Error, root_length, key_record, unsupported_encryption, unknown_type, out_of_fuel,
  truncated_value, root_count, not_lowercase, bad_encoding, wrong_prefix, bad_padding,
  not_canonical, Bech32, PlaintextRoot, Entry, hex, parse_entries, of_type, single_root, root_of,
  encode_nhash, decode_nhash,
}

-- The bytes of a list of records.
abbrev pub serialized : List Entry → List ℕ
serialized [] = []
serialized (e ∷ es) = e.type ∷ length e.value ∷ (e.value ++ serialized es)

take-drop : (n : ℕ) (xs : List ℕ) → take n xs ++ drop n xs ≡ xs
take-drop zero xs = refl
take-drop (suc n) [] = refl
take-drop (suc n) (x ∷ xs) = ap (◌∷◌ x) (take-drop n xs)

length-take : (n : ℕ) (xs : List ℕ) → n ≤ length xs → length (take n xs) ≡ n
length-take zero xs h = refl
length-take (suc n) [] h = absurd (omega arith)
length-take (suc n) (x ∷ xs) h = ap suc (length-take n xs (omega arith))

length-drop-le : (n : ℕ) (xs : List ℕ) → length (drop n xs) ≤ length xs
length-drop-le zero xs = omega arith
length-drop-le (suc n) [] = omega arith
length-drop-le (suc n) (x ∷ xs) = omega (arith, length-drop-le n xs)

parse_entries-serialized :
    (fuel : ℕ) (p : List ℕ) (es : List Entry) → parse_entries fuel p ≡ ok es → p ≡ serialized es
unfolding parse_entries
parse_entries-serialized zero p es h = cc
parse_entries-serialized (suc fuel) [] es h = ap serialized (ok_injective h)
parse_entries-serialized (suc fuel) (t ∷ []) es h = cc
parse_entries-serialized (suc fuel) (t ∷ n ∷ rest) es h =
    let (u, fits, h1) = >>=-eq-ok (ensure (leb n (length rest)) truncated_value) _ h in
    let (more, e, last) = >>=-eq-ok (parse_entries fuel (drop n rest)) _ h1 in
    let ih = parse_entries-serialized fuel (drop n rest) more e in
    let len = length-take n rest (leb→le n (length rest) (ensure-eq-ok _ _ fits)) in
    subst (λ x. t ∷ n ∷ rest ≡ serialized x) (ok_injective last)
      (rw len (ap (λ x. t ∷ n ∷ x) (sym (take-drop n rest) ∙ ap (◌++◌ (take n rest)) ih)))

-- The fuel that `decode_nhash` gives is enough.
pub parse_entries-ne-out :
    (fuel : ℕ) (p : List ℕ) → length p < fuel → parse_entries fuel p ≢ err out_of_fuel
unfolding parse_entries
parse_entries-ne-out zero p h = absurd (omega arith)
parse_entries-ne-out (suc fuel) [] h = λ e. cc
parse_entries-ne-out (suc fuel) (t ∷ []) h = λ e. cc
parse_entries-ne-out (suc fuel) (t ∷ n ∷ rest) h =
    ground (arith, length-drop-le n rest, parse_entries-ne-out fuel (drop n rest))

plain :
    (es : List Entry)
    → any (λ e. not (e.type == 0) && not (e.type == 5)) es ≡ false
    → length (of_type 5 es) ≡ 0
    → of_type 0 es ≡ es
plain [] h k = refl
plain (e ∷ es) h k = ground (arith, plain es)

single_root-one :
    (es : List Entry) (root : List ℕ)
    → single_root es ≡ some root
    → (e : Entry) × (es ≡ e ∷ []) × (e.value ≡ root) × (length root ≡ 32)
unfolding single_root
single_root-one [] root h = cc
single_root-one (e ∷ []) root h = (e, refl, ground arith, ground arith)
single_root-one (e ∷ f ∷ es) root h = cc

no_keys : (wrong : Bool) (n : ℕ) → not (wrong || ltb 1 n) ≡ true → not (n == 1) ≡ true → n ≡ 0
no_keys wrong n h k = ground arith

not-true : (b : Bool) → not b ≡ true → b ≡ false
not-true true h = cc
not-true false h = refl

type_zero : (e : Entry) → of_type 0 (e ∷ []) ≡ e ∷ [] → e.type ≡ 0
type_zero e k = ground arith

entry_eta :
    (e : Entry) (root : List ℕ)
    → e.type ≡ 0
    → e.value ≡ root
    → e ≡ record { type = 0; value = root }
entry_eta e root p q = λ i. record { type = p i; value = q i }

require-some : {A : Type 0} (o : Option A) (e : Error) (a : A) → require o e ≡ ok a → o ≡ some a
require-some none e a h = cc
require-some (some x) e a h = ap some (ok_injective h)

-- What the checks on the records leave: one record of type 0 that has 32 bytes, and no other.
root_of-one :
    (es : List Entry) (root : List ℕ)
    → root_of es ≡ ok root
    → (es ≡ record { type = 0; value = root } ∷ []) × (length root ≡ 32)
unfolding root_of
root_of-one es root h =
    let (_, known, h1) =
      >>=-eq-ok (ensure (not (any (λ e. not (e.type == 0) && not (e.type == 5)) es)) unknown_type) _
        h in
    let (r, one, h2) = >>=-eq-ok (require (single_root (of_type 0 es)) root_count) _ h1 in
    let (_, keyed, h3) =
      >>=-eq-ok
        (ensure
          (not (
            any (λ (e : Entry). not (length e.value == 32)) (of_type 5 es)
            || ltb 1 (length (of_type 5 es))))
          key_record)
        _ h2 in
    let (_, open_, h4) =
      >>=-eq-ok (ensure (not (length (of_type 5 es) == 1)) unsupported_encryption) _ h3 in
    let all =
      plain es (not-true _ (ensure-eq-ok _ _ known))
        (no_keys _ _ (ensure-eq-ok _ _ keyed) (ensure-eq-ok _ _ open_)) in
    let (e, same, value, len) = single_root-one (of_type 0 es) r (require-some _ _ r one) in
    let here : es ≡ e ∷ [] = sym all ∙ same in
    let typed = type_zero e (subst (λ x. of_type 0 x ≡ x) here all) in
    let root_is : r ≡ root = ok_injective h4 in
    (
      here ∙ ap (λ x. x ∷ []) (entry_eta e root typed (value ∙ root_is)),
      ap length (sym root_is) ∙ len,
    )

take_all : (xs : List ℕ) → take (length xs) xs ≡ xs
take_all [] = refl
take_all (x ∷ xs) = ap (◌∷◌ x) (take_all xs)

drop_all : (xs : List ℕ) → drop (length xs) xs ≡ []
drop_all [] = refl
drop_all (x ∷ xs) = drop_all xs

parse_entries-root :
    (n : ℕ) (root : List ℕ)
    → length root ≡ n
    → parse_entries (suc (suc (suc (length root)))) (0 ∷ n ∷ root)
      ≡ ok (record { type = 0; value = root } ∷ [])
unfolding parse_entries
parse_entries-root n root h =
    subst
      (λ m.
        parse_entries (suc (suc (suc (length root)))) (0 ∷ m ∷ root)
        ≡ ok (record { type = 0; value = root } ∷ []))
      h (ground (arith, take_all root, drop_all root))

root_of-root :
    (root : List ℕ) → length root ≡ 32 → root_of (record { type = 0; value = root } ∷ []) ≡ ok root
unfolding root_of single_root
root_of-root root h = ground arith

module _ (b : Bech32) (lower : Text → Text) where
  encoded_again :
      (payload root : List ℕ) (value : Text)
      → payload ≡ 0 ∷ length root ∷ (root ++ [])
      → length root ≡ 32
      → b.encode (txt "nhash") (b.to_words payload) ≡ value
      → encode_nhash b lower root ≡ ok value
  unfolding encode_nhash
  encoded_again payload root value p len e =
      let q : payload ≡ 0 ∷ 32 ∷ root = p ∙ ap₂ (λ n xs. 0 ∷ n ∷ xs) len (append-nil root) in
      rw len (ap (λ x. ok (b.encode (txt "nhash") (b.to_words x))) (sym q) ∙ ap ok e)

  -- A text that decodes is the encoding of the root that it decodes to, which has 32 bytes.
  pub encode-decode_nhash :
      (value : Text) (r : PlaintextRoot)
      → decode_nhash b lower value ≡ ok r
      → (encode_nhash b lower r.bytes ≡ ok value)
        × (length r.bytes ≡ 32)
        × (r.nhash ≡ value)
        × (r.hex ≡ hex r.bytes)
  unfolding decode_nhash
  encode-decode_nhash value r h =
      let (_, _, h1) =
        >>=-eq-ok (ensure (leb (length value) 200 && text_eq value (lower value)) not_lowercase) _
          h in
      let (d, _, h2) = >>=-eq-ok (require (b.decode value) bad_encoding) _ h1 in
      let (_, _, h3) = >>=-eq-ok (ensure (text_eq (d.0) (txt "nhash")) wrong_prefix) _ h2 in
      let (payload, _, h4) = >>=-eq-ok (require (b.from_words (d.1)) bad_padding) _ h3 in
      let (_, same, h5) =
        >>=-eq-ok
          (ensure (text_eq (b.encode (txt "nhash") (b.to_words payload)) value) not_canonical) _
          h4 in
      let (es, parsed, h6) = >>=-eq-ok (parse_entries (suc (length payload)) payload) _ h5 in
      let (root, checked, last) = >>=-eq-ok (root_of es) _ h6 in
      let (one, len) = root_of-one es root checked in
      let bytes =
        parse_entries-serialized (suc (length payload)) payload es parsed ∙ ap serialized one in
      subst
        (λ x.
          (encode_nhash b lower x.bytes ≡ ok value)
          × (length x.bytes ≡ 32)
          × (x.nhash ≡ value)
          × (x.hex ≡ hex x.bytes))
        (ok_injective last)
        (
          encoded_again payload root value bytes len (text_eq_sound _ _ (ensure-eq-ok _ _ same)),
          len,
          refl,
          refl,
        )

  -- The text that 32 bytes are to be written as.
  abbrev pub written : List ℕ → Text
  written root = b.encode (txt "nhash") (b.to_words (0 ∷ 32 ∷ root))

  -- What the Bech32 functions do for one root: they decode what they encode, and write it in lower
  -- case and in no more than 200 characters.
  pub record Invertible (root : List ℕ) : Type 0 where
    pub decodes : b.decode (written root) ≡ some (txt "nhash", b.to_words (0 ∷ 32 ∷ root))
    pub unpacks : b.from_words (b.to_words (0 ∷ 32 ∷ root)) ≡ some (0 ∷ 32 ∷ root)
    pub short : length (written root) ≤ 200
    pub lowercase : lower (written root) ≡ written root

  decode-written :
      (root : List ℕ)
      → Invertible root
      → length root ≡ 32
      → decode_nhash b lower (written root)
        ≡ ok (record { bytes = root; hex = hex root; nhash = written root })
  unfolding decode_nhash
  decode-written root v h = ground (
    arith,
    v.decodes,
    v.unpacks,
    v.short,
    v.lowercase,
    text_eq_refl (written root),
    text_eq_refl (txt "nhash"),
    parse_entries-root 32 root h,
    root_of-root root h,
  )

  -- Where the Bech32 functions do so, the encoding of 32 bytes decodes to them.
  pub decode-encode_nhash :
      (root : List ℕ) (value : Text)
      → Invertible root
      → encode_nhash b lower root ≡ ok value
      → decode_nhash b lower value ≡ ok (record { bytes = root; hex = hex root; nhash = value })
  unfolding encode_nhash
  decode-encode_nhash root value v h =
      let (_, len, last) = >>=-eq-ok (ensure (length root == 32) root_length) _ h in
      subst (λ x. decode_nhash b lower x ≡ ok (record { bytes = root; hex = hex root; nhash = x }))
        (ok_injective last) (decode-written root v ((==_iff _ _).0 (ensure-eq-ok _ _ len)))
