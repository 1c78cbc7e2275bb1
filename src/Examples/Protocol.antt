-- ===== src/Examples/Protocol.antt =====
-- src/protocol/narinfo.ts, src/protocol/nhash.ts and src/blossom/source_plan.ts at concrete inputs.
use nixstr_cache.Prelude.{
  ℕ, ◌==◌, ◌+◌, ◌≡◌, ◌≤◌, ◌≢◌, refl, arith, Bool, true, false, Option, none, some, List, [], ◌∷◌,
  ◌++◌, length, drop, take, All, Text, txt, join, map,
}
use nixstr_cache.Prelude.Result.{ok, err}
use nixstr_cache.NarInfo.{NarInfo, Signature, parse, sig, parse_line}
use nixstr_cache.NarInfo.Endorsements.{Endorses, classify-Endorses}
use nixstr_cache.NarInfo.Ops.{classify, SignatureKey, Endorsement, append_signatures}
use nixstr_cache.NarInfo.Lines.{IsSigLine}
use nixstr_cache.NarInfo.Merge.{raw_lines, parse-append_signatures}
use nixstr_cache.Nhash.{
  out_of_fuel, Bech32, PlaintextRoot, decode_nhash, encode_nhash, hex, parse_entries,
}
use nixstr_cache.Nhash.Laws.{
  encode-decode_nhash, decode-encode_nhash, Invertible, parse_entries-ne-out,
}
use nixstr_cache.SourcePlan.{Url, Input, build, sources}
use nixstr_cache.SourcePlan.Laws.{Distinct, entry_of, best, allowed_of, build-best}

-- Base64 functions that leave the characters as they are.
abbrev pub atob : Text → Option (List ℕ)
atob s = some s

abbrev pub btoa : List ℕ → Text
btoa bytes = bytes

abbrev pub sixty_four : Text
sixty_four = txt "aaaaaaaaaaaaaaaaaaaaaaaaaaaaaaaaaaaaaaaaaaaaaaaaaaaaaaaaaaaaaaaa"

abbrev pub sample_lines : List Text
sample_lines =
    txt "StorePath: /nix/store/aaaaaaaaaaaaaaaaaaaaaaaaaaaaaaaa-x"
    ∷ txt "URL: nar/x"
    ∷ txt "Compression: xz"
    ∷ txt "FileHash: sha256:ab"
    ∷ txt "FileSize: 3"
    ∷ txt "NarHash: sha256:ab"
    ∷ txt "NarSize: 4"
    ∷ txt "References: aaaaaaaaaaaaaaaaaaaaaaaaaaaaaaaa-x"
    ∷ []

abbrev pub sample_text : Text
sample_text = join (10 ∷ []) sample_lines ++ 10 ∷ []

abbrev pub sample : NarInfo
sample = record {
  store_path = txt "/nix/store/aaaaaaaaaaaaaaaaaaaaaaaaaaaaaaaa-x";
  url = txt "nar/x";
  compression = txt "xz";
  file_hash = txt "sha256:ab";
  file_size = 3;
  nar_hash = txt "sha256:ab";
  nar_size = 4;
  references = txt "aaaaaaaaaaaaaaaaaaaaaaaaaaaaaaaa-x" ∷ [];
  deriver = none;
  system = none;
  ca = none;
  signatures = [];
  fingerprint =
      txt
        "1;/nix/store/aaaaaaaaaaaaaaaaaaaaaaaaaaaaaaaa-x;sha256:ab;4;aaaaaaaaaaaaaaaaaaaaaaaaaaaaaaaa-x";
  raw_text = sample_text;
}

pub parsed : parse atob btoa sample_text ≡ ok sample
unfolding parse nixstr_cache.Prelude.ends_with join nixstr_cache.Prelude.has_char
    nixstr_cache.Prelude.split nixstr_cache.Prelude.split_from nixstr_cache.Prelude.drop_last
    nixstr_cache.Prelude.cut_pair nixstr_cache.Prelude.text_eq nixstr_cache.Prelude.lookup
    nixstr_cache.Prelude.insert nixstr_cache.NarInfo.is_store_path nixstr_cache.Prelude.strip
    nixstr_cache.Prelude.starts_with nixstr_cache.NarInfo.is_url nixstr_cache.NarInfo.is_compression
    nixstr_cache.NarInfo.is_sha256 nixstr_cache.NarInfo.unsigned_integer
    nixstr_cache.NarInfo.add_line nixstr_cache.NarInfo.assemble nixstr_cache.NarInfo.collect
    nixstr_cache.NarInfo.check_required nixstr_cache.NarInfo.fingerprint_of
    nixstr_cache.NarInfo.is_alphanumeric nixstr_cache.NarInfo.is_lf_text
    nixstr_cache.NarInfo.is_reference nixstr_cache.NarInfo.parse_line nixstr_cache.NarInfo.scalar_of
    nixstr_cache.Prelude.decimal nixstr_cache.Prelude.decimal_from
    nixstr_cache.Prelude.decimal_value nixstr_cache.Prelude.is_digit nixstr_cache.Prelude.is_lower
    nixstr_cache.Prelude.is_space
parsed = refl

abbrev signature : Signature
signature = record {
  name = txt "k";
  encoded = sixty_four;
  bytes = sixty_four;
  raw_line = txt "Sig: k:" ++ sixty_four;
}

signature-IsSigLine : IsSigLine atob btoa signature
unfolding parse_line nixstr_cache.Prelude.cut_pair nixstr_cache.Prelude.text_eq
    nixstr_cache.Prelude.cut nixstr_cache.Prelude.has_char nixstr_cache.NarInfo.is_name_char
    nixstr_cache.NarInfo.is_base64
signature-IsSigLine = record { again = refl; one_line = refl; no_return = refl; no_null = refl }

parse-append_signatures_example :
    parse atob btoa (append_signatures sample (raw_lines (signature ∷ [])))
    ≡ ok (record sample {
      signatures = signature ∷ [];
      raw_text = append_signatures sample (raw_lines (signature ∷ []));
    })
parse-append_signatures_example =
    parse-append_signatures atob btoa sample_text sample (signature ∷ []) parsed
      (signature-IsSigLine, tt)

-- A code that writes the words behind the prefix, and words that are the bytes.
abbrev pub code : Bech32
code = record {
  encode = λ prefix words. prefix ++ words;
  decode = λ s. some (take 5 s, drop 5 s);
  to_words = λ bytes. bytes;
  from_words = λ words. some words;
}

abbrev pub lower : Text → Text
lower s = s

abbrev pub root : List ℕ
root =
    1 ∷ 2 ∷ 3 ∷ 4 ∷ 5 ∷ 6 ∷ 7 ∷ 8 ∷ 1 ∷ 2 ∷ 3 ∷ 4 ∷ 5 ∷ 6 ∷ 7 ∷ 8 ∷ 1 ∷ 2 ∷ 3 ∷ 4 ∷ 5 ∷ 6 ∷ 7 ∷ 8
    ∷ 1 ∷ 2 ∷ 3 ∷ 4 ∷ 5 ∷ 6 ∷ 7 ∷ 255 ∷ []

abbrev pub nhash : Text
nhash = txt "nhash" ++ 0 ∷ 32 ∷ root

abbrev pub plain : PlaintextRoot
plain = record { bytes = root; hex = hex root; nhash = nhash }

pub decoded : decode_nhash code lower nhash ≡ ok plain
unfolding decode_nhash nixstr_cache.Prelude.text_eq
decoded = refl

encoded : encode_nhash code lower root ≡ ok nhash
unfolding encode_nhash
encoded = refl

encode-decode_nhash_example :
    (encode_nhash code lower root ≡ ok nhash)
    × (length root ≡ 32)
    × (nhash ≡ nhash)
    × (hex root ≡ hex root)
encode-decode_nhash_example = encode-decode_nhash code lower nhash plain decoded

root-Invertible : Invertible code lower root
root-Invertible = record { decodes = refl; unpacks = refl; short = omega arith; lowercase = refl }

decode-encode_nhash_example : decode_nhash code lower nhash ≡ ok plain
decode-encode_nhash_example = decode-encode_nhash code lower root nhash root-Invertible encoded

abbrev parse_url : Text → Option Url
parse_url s = some (record {
  protocol = txt "https:";
  username = [];
  password = [];
  search = [];
  hash = [];
  pathname = s;
  origin = s;
})

abbrev href : Url → Text → Text
href u path = path

abbrev allowed : Text → Bool
allowed origin = false

abbrev plan : Input
plan = record { extras = txt "a/" ∷ []; event = txt "a" ∷ txt "b" ∷ []; bud03 = txt "b//" ∷ [] }

build-best_example :
    Distinct (build parse_url href allowed plan)
    × ((u : Text)
        → entry_of u (build parse_url href allowed plan)
          ≡ best u (allowed_of parse_url href allowed (sources plan)))
build-best_example = build-best parse_url href allowed plan

parse_entries-ne-out_example : parse_entries 4 (0 ∷ 1 ∷ 7 ∷ []) ≢ err out_of_fuel
parse_entries-ne-out_example = parse_entries-ne-out 4 (0 ∷ 1 ∷ 7 ∷ []) (omega arith)

-- A check that accepts the keys that begin with a one.
abbrev verify : List ℕ → List ℕ → List ℕ → Bool
verify checked message [] = false
verify checked message (b ∷ bs) = b == 1

abbrev signed : NarInfo
signed = record sample { signatures = signature ∷ [] }

abbrev endorsers : List SignatureKey
endorsers =
    record { name = txt "k"; encoded = []; bytes = 2 ∷ drop 1 root }
    ∷ record { name = txt "l"; encoded = []; bytes = root }
    ∷ []

classify-Endorses_example :
    (es : List Endorsement) × (classify verify lower signed endorsers ≡ ok es)
    × (length es ≡ 1)
    × All (Endorses verify lower signed.fingerprint endorsers signed.signatures) es
classify-Endorses_example = classify-Endorses verify lower signed endorsers (refl, (refl, tt))
