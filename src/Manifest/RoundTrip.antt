-- ===== src/Manifest/RoundTrip.antt =====
-- src/protocol/hashtree.ts: what `encodeManifest` writes, `decodeValidatedManifest` reads.
use nixstr_cache.Prelude.{
  suc, ◌≤◌, ◌≡◌, refl, ap, Option, none, some, List, [], ◌∷◌, length, All, All-imp, Text, text_eq,
  text_eq_refl, text_lt, le→leb,
}
use nixstr_cache.Prelude.Result.{ok, >>=-eq-ok, passes, requires}
use nixstr_cache.Manifest.Value.{num, find_field, cost, Codec, item_list}
use nixstr_cache.Manifest.{
  Link, Kind, file, directory, fanout, Manifest, Limits, max_safe, kind_number, encode_links,
  encode_manifest, bad_fanout_link,
}
use nixstr_cache.Manifest.Decode.{
  manifest_kind, exact_keys, decode_links, sort_texts, same_texts, insert_text,
}
use nixstr_cache.Manifest.Rules.{
  check_links, check_fanout, validate, decode_validated, is_fanout_link, check_bounds,
}
use nixstr_cache.Manifest.Shape.{IsLink}
use nixstr_cache.Manifest.Checks.{check_file-IsPart, is_fanout_link-cases}
use nixstr_cache.Manifest.Encoded.{JsonFits, NameFits, decode_link-encode_link}

-- A link that the encoder and the decoder both take.
pub record IsEncodable (k : Kind) (l : Link) : Type 0 where
  pub link : IsLink k l
  pub metadata : JsonFits l.metadata

decode_links-encode_links :
    (k : Kind) (ls : List Link)
    → All (IsEncodable k) ls
    → All (λ l. NameFits k l.name) ls
    → decode_links k (item_list (encode_links ls)) ≡ ok ls
unfolding decode_links encode_links item_list
decode_links-encode_links k [] h n = refl
decode_links-encode_links k (l ∷ ls) (h, hs) (n, ns) =
    rw (decode_link-encode_link k l h.link h.metadata n, decode_links-encode_links k ls hs ns) refl

length-encode_links : (ls : List Link) → length (item_list (encode_links ls)) ≡ length ls
unfolding encode_links item_list
length-encode_links [] = refl
length-encode_links (l ∷ ls) = ap suc (length-encode_links ls)

manifest_kind-kind_number : (k : Kind) → manifest_kind (num (kind_number k)) ≡ ok k
unfolding manifest_kind
manifest_kind-kind_number file = refl
manifest_kind-kind_number directory = refl
manifest_kind-kind_number fanout = refl

module _ (c : Codec) where
  fanout-nameless :
      (p : Option Text) (ls : List Link) {u : Unit {0}}
      → check_fanout c p ls ≡ ok u
      → All (λ l. l.name ≡ none) ls
  unfolding check_fanout
  fanout-nameless p [] h = tt
  fanout-nameless p (l ∷ ls) h =
      let (isf, h1) = passes (is_fanout_link c l) bad_fanout_link _ h in
      let (fs, m, h2) = requires l.metadata bad_fanout_link _ h1 in
      let (b, e, h3) = >>=-eq-ok (check_bounds c p fs) _ h2 in
      ((is_fanout_link-cases c l isf).0, fanout-nameless (some (b.last)) ls h3)

  check_links-NameFits :
      (k : Kind) (ls : List Link) {u : Unit {0}}
      → All (IsEncodable k) ls
      → check_links c k ls ≡ ok u
      → All (λ l. NameFits k l.name) ls
  unfolding check_links
  check_links-NameFits file ls a h = All-imp _ _ (λ l p. p.nameless) ls (check_file-IsPart ls h)
  check_links-NameFits directory ls a h = All-imp _ _ (λ l p. (p.link).named) ls a
  check_links-NameFits fanout ls a h = fanout-nameless none ls h

  validate-encode_manifest :
      (m : Manifest) (limits : Limits)
      → cost c.utf8 (encode_manifest m) ≤ limits.max_decoded_bytes
      → length m.links ≤ limits.max_links
      → All (IsEncodable m.kind) m.links
      → check_links c m.kind m.links ≡ ok tt
      → validate c limits (encode_manifest m)
        ≡ ok (record { manifest = m; decoded_bytes = cost c.utf8 (encode_manifest m) })
  unfolding validate encode_manifest find_field text_eq exact_keys sort_texts same_texts insert_text
      text_lt
  validate-encode_manifest m limits a b e f =
      rw
        (
          le→leb _ _ a,
          length-encode_links m.links,
          le→leb _ _ b,
          manifest_kind-kind_number m.kind,
          decode_links-encode_links m.kind m.links e (check_links-NameFits m.kind m.links e f),
          f,
        )
        refl

  -- A manifest whose links are well formed and pass the checks of its kind is read back whole from
  -- the bytes that it is encoded to, with its cost, where MessagePack reads back what it wrote and
  -- the limits leave room for the bytes, the cost and the links.
  pub decode_validated-encode_manifest :
      (m : Manifest) (limits : Limits)
      → c.decode (c.encode (encode_manifest m)) ≡ some (encode_manifest m)
      → limits.max_wire_bytes ≤ max_safe
      → length (c.encode (encode_manifest m)) ≤ limits.max_wire_bytes
      → cost c.utf8 (encode_manifest m) ≤ limits.max_decoded_bytes
      → length m.links ≤ limits.max_links
      → All (IsEncodable m.kind) m.links
      → check_links c m.kind m.links ≡ ok tt
      → decode_validated c (c.encode (encode_manifest m)) limits
        ≡ ok (record { manifest = m; decoded_bytes = cost c.utf8 (encode_manifest m) })
  unfolding decode_validated
  decode_validated-encode_manifest m limits r s w a b e f =
      rw (le→leb _ _ s, le→leb _ _ w, r, text_eq_refl (c.encode (encode_manifest m)))
        (validate-encode_manifest m limits a b e f)
