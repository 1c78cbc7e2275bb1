-- ===== src/Examples/Trees.antt =====
-- src/protocol/hashtree.ts and src/hashtree/reader.ts: small trees and the requests for their paths.
use nixstr_cache.Prelude.{
  ℕ, zero, suc, ◌≡◌, ◌≢◌, ◌↔◌, ◌⊎◌, inl, inr, refl, Bool, true, false, Option, none, some, List, [],
  ◌∷◌, All, Any, Text, txt, text_eq, if◌then◌else◌, arith, ◌≤◌, length,
}
use nixstr_cache.Prelude.Result.{Result, ok, err}
use nixstr_cache.Nhash.{hex}
use nixstr_cache.Budget
use nixstr_cache.Budget.{Budget}
use nixstr_cache.Manifest.Value.{Codec, Raw, cost}
use nixstr_cache.Manifest
use nixstr_cache.Manifest.{
  Manifest, directory, file, Link, raw_link, file_link, encode_manifest, Validated, max_safe,
}
use nixstr_cache.Manifest.Rules.{decode_validated, check_links}
use nixstr_cache.Manifest.Sound.{IsValidated, decode_validated-IsValidated}
use nixstr_cache.Manifest.RoundTrip.{IsEncodable, decode_validated-encode_manifest}
use nixstr_cache.Resolver.Step.{Error, absent, Reply, value}
use nixstr_cache.Resolver.Fetch.{World, FetchLimits, Fetched}
use nixstr_cache.Resolver.Plan.{Chunk}
use nixstr_cache.Resolver.Walk.{choose, get, head, Resolved, whole, resolve}
use nixstr_cache.Resolver.Runs.{Keeps-refl, Explained}
use nixstr_cache.Resolver.Fetches.{IsAuthentic}
use nixstr_cache.Resolver.Answers.{
  IsResolved, resolve-IsResolved, Service, served_by, resolve_agree,
}
use nixstr_cache.Resolver.Listings.{choose-listing}

abbrev pub zeros : ℕ → List ℕ
zeros zero = []
zeros (suc n) = 0 ∷ zeros n

abbrev one : List ℕ
one = 1 ∷ zeros 31

abbrev nar : Link
nar = record {
  hash = zeros 32;
  key = none;
  metadata = none;
  name = some (txt "nar");
  size = 3;
  type = raw_link;
}

abbrev store : Link
store = record {
  hash = one;
  key = none;
  metadata = none;
  name = some (txt "store");
  size = 9;
  type = file_link;
}

abbrev root : Manifest
root = record { kind = directory; links = nar ∷ store ∷ [] }

-- A codec that knows one manifest.
abbrev codec : Codec
codec = record {
  utf8 = λ t. t;
  encode = λ v. 7 ∷ [];
  decode = λ b. if text_eq b (7 ∷ []) then some (encode_manifest root) else none;
}

abbrev pub wide : Manifest.Limits
wide = record { max_wire_bytes = 64; max_decoded_bytes = 999; max_links = 4 }

abbrev validated : Validated
validated = record { manifest = root; decoded_bytes = 122 }

decodes : decode_validated codec (7 ∷ []) wide ≡ ok validated
unfolding decode_validated text_eq cost encode_manifest nixstr_cache.Prelude.text_lt
    nixstr_cache.Manifest.Value.find_field nixstr_cache.Manifest.Value.item_list
    nixstr_cache.Prelude.has_char
decodes = refl

decode_validated-IsValidated_example : IsValidated codec wide (7 ∷ []) validated
decode_validated-IsValidated_example = decode_validated-IsValidated codec wide (7 ∷ []) decodes

links_fine : All (IsEncodable directory) (nar ∷ store ∷ [])
links_fine = (
  record {
    link = record { named = refl; hash = refl; key = tt; size = omega arith };
    metadata = tt;
  },
  (
    record {
      link = record { named = refl; hash = refl; key = tt; size = omega arith };
      metadata = tt;
    },
    tt,
  ),
)

checks : check_links codec directory (nar ∷ store ∷ []) ≡ ok tt
unfolding check_links text_eq nixstr_cache.Prelude.has_char nixstr_cache.Prelude.text_lt
checks = refl

decodes_again : codec.decode (7 ∷ []) ≡ some (encode_manifest root)
unfolding text_eq
decodes_again = refl

decode_validated-encode_manifest_example :
    decode_validated codec (7 ∷ []) wide
    ≡ ok (record { manifest = root; decoded_bytes = cost (λ t. t) (encode_manifest root) })
unfolding cost encode_manifest
decode_validated-encode_manifest_example =
    decode_validated-encode_manifest codec root wide decodes_again (omega arith) (omega arith)
      (omega arith) (omega arith) links_fine checks

-- Every blob but the root is three bytes long.
abbrev content : Text → List ℕ
content h = if text_eq h (txt "r") then 7 ∷ [] else 1 ∷ 2 ∷ 3 ∷ []

abbrev world : World
world = record {
  clock = λ n. n;
  fetch = λ h l b t. record { result = ok (content h); budget = b; tick = t };
  recall = λ h t. none;
  codec = codec;
  limits = wide;
}

-- Another service, where the root is in the manifest cache and the clock stands.
abbrev service : Service
service = record {
  clock = λ n. 1;
  fetch = λ h l b t. record { result = ok (content h); budget = b; tick = suc t };
  recall = λ h t. if text_eq h (txt "r") then some (ok validated) else none;
}

abbrev pub budget : Budget
budget = record {
  limits = record {
    max_depth = 3;
    max_links = 9;
    max_unique_nodes = 9;
    max_decoded_bytes = 999;
    max_attempts = 9;
    max_redirects = 9;
    max_concurrent = 1;
    max_blob_transfer_bytes = 99;
    max_transferred_bytes = 99;
    max_output_bytes = 99;
    deadline = 99;
  };
  links = 0;
  nodes = [];
  decoded = 0;
  attempts = 0;
  redirects = 0;
  concurrent = 0;
  transferred = 0;
  output = 0;
}

world-IsAuthentic : IsAuthentic world content
world-IsAuthentic = record {
  bytes = λ h l b t e. cc;
  spends = λ h l b t. Keeps-refl b;
  recalls = λ h t e. cc;
  refuses = λ h t e. cc;
}

recalled :
    (b : Bool) (v : Validated)
    → Path (Option (Result Error Validated)) (if b then some (ok validated) else none) (some (ok v))
    → decode_validated codec (if b then 7 ∷ [] else 1 ∷ 2 ∷ 3 ∷ []) wide ≡ ok v
recalled true v e = let d = decodes in cc
recalled false v e = cc

refused :
    (b : Bool) (x : Error)
    → Path
        (Option (Result Error Validated))
        (if b then some (ok validated) else none)
        (some (err x))
    → Explained ⊥ x
refused true x e = cc
refused false x e = cc

service-IsAuthentic : IsAuthentic (served_by world service) content
service-IsAuthentic = record {
  bytes = λ h l b t e. cc;
  spends = λ h l b t. Keeps-refl b;
  recalls = λ h t e. recalled (text_eq h (txt "r")) _ e;
  refuses = λ h t e. refused (text_eq h (txt "r")) _ e;
}

resolved :
    value (resolve world (txt "r") (txt "/nar") get budget 0)
    ≡ ok
        (record { hash = hex (zeros 32); size = 3; type = raw_link; body = whole (1 ∷ 2 ∷ 3 ∷ []) })
unfolding resolve nixstr_cache.Resolver.Walk.resolve_segments nixstr_cache.Resolver.Walk.segments_of
    nixstr_cache.Prelude.split nixstr_cache.Prelude.split_from nixstr_cache.Resolver.Walk.walk
    nixstr_cache.Resolver.Walk.round nixstr_cache.Resolver.Step.spend Budget.check_depth
    nixstr_cache.Resolver.Fetch.manifest_of nixstr_cache.Prelude.lookup
    nixstr_cache.Resolver.Fetch.load_manifest Budget.visit nixstr_cache.Resolver.Fetch.obtain
    nixstr_cache.Resolver.Fetch.load nixstr_cache.Resolver.Fetch.fetch_blob Budget.acquire
    Budget.debit_decoded Budget.debit_links Budget.ensure_output_available Budget.live
    Budget.release cost nixstr_cache.Manifest.Value.find_field nixstr_cache.Manifest.Value.item_list
    nixstr_cache.Manifest.Value.json_fields nixstr_cache.Manifest.Rules.byte_lt
    nixstr_cache.Manifest.Decode.bytes32 nixstr_cache.Manifest.Rules.check_bounds
    nixstr_cache.Manifest.Rules.check_directory nixstr_cache.Manifest.Rules.check_fanout
    nixstr_cache.Manifest.Rules.check_file check_links nixstr_cache.Manifest.Decode.decode_link
    nixstr_cache.Manifest.Decode.decode_links decode_validated
    nixstr_cache.Manifest.Decode.exact_keys nixstr_cache.Manifest.Decode.insert_text
    nixstr_cache.Manifest.Decode.is_allowed nixstr_cache.Manifest.Rules.is_fanout_link
    nixstr_cache.Manifest.Rules.is_file_link nixstr_cache.Manifest.Rules.is_safe_name
    nixstr_cache.Manifest.Decode.json_metadata nixstr_cache.Manifest.Decode.link_name
    nixstr_cache.Manifest.Decode.link_type nixstr_cache.Manifest.Decode.manifest_kind
    nixstr_cache.Manifest.Decode.same_texts nixstr_cache.Manifest.Decode.sort_texts
    nixstr_cache.Manifest.Decode.uint nixstr_cache.Manifest.Rules.validate hex
    nixstr_cache.Prelude.has_char text_eq nixstr_cache.Prelude.text_lt
    nixstr_cache.Resolver.Fetch.ask nixstr_cache.Resolver.Fetch.remember
    nixstr_cache.Resolver.Fetch.transfer nixstr_cache.Resolver.Plan.file_plan
    nixstr_cache.Resolver.Plan.parts nixstr_cache.Resolver.Plan.visit_file choose
    nixstr_cache.Resolver.Walk.open_link encode_manifest Manifest.encode_links Manifest.encode_link
resolved = refl

resolve-IsResolved_example :
    IsResolved world content
      (txt "r")
      (txt "/nar")
      get
      budget
      (resolve world (txt "r") (txt "/nar") get budget 0)
resolve-IsResolved_example =
    resolve-IsResolved world content (txt "r") (txt "/nar") get budget 0 world-IsAuthentic

resolve_agree_example :
    ((r' : Resolved)
      → value (resolve (served_by world service) (txt "r") (txt "/nar") get budget 5) ≡ ok r'
      → record { hash = hex (zeros 32); size = 3; type = raw_link; body = whole (1 ∷ 2 ∷ 3 ∷ []) }
        ≡ r')
    × ¬ (value (resolve (served_by world service) (txt "r") (txt "/nar") get budget 5) ≡ err absent)
resolve_agree_example =
    resolve_agree world service content (txt "r") (txt "/nar") get budget budget 0 5
      world-IsAuthentic service-IsAuthentic resolved

choose-listing_example :
    ((choose (txt "store") root ≡ some store)
      ↔ (Any (λ x. x ≡ store) (nar ∷ store ∷ []) × (some (txt "store") ≡ some (txt "store"))))
    × ((choose (txt "store") root ≡ none)
        ↔ All (λ x. x.name ≢ some (txt "store")) (nar ∷ store ∷ []))
choose-listing_example =
    choose-listing codec root (txt "store") store refl
      (decode_validated-IsValidated_example.checked).shaped
