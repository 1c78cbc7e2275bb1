-- ===== src/Manifest/Sound.antt =====
-- src/protocol/hashtree.ts, `decodeValidatedManifest`: what it promises of its result.
use nixstr_cache.Prelude.{
  ℕ, ◌≤◌, ◌≡◌, refl, subst, ◌&&◌, some, List, [], ◌∷◌, leb, arith, length, All, txt, text_eq,
  text_eq_iff, leb→le,
}
use nixstr_cache.Prelude.Result.{ok, >>=-eq-ok, passes, requires, ok_injective}
use nixstr_cache.Manifest.Value.{Raw, find_field, cost, Codec}
use nixstr_cache.Manifest.{
  Limits, Validated, max_safe, wrong_fields, decoded_limit, links_not_array, links_limit,
  unsupported_type, malformed, not_canonical, wire_limit, root_not_map,
}
use nixstr_cache.Manifest.Decode.{as_object, as_array, manifest_kind, exact_keys, decode_links}
use nixstr_cache.Manifest.Rules.{check_links, validate, decode_validated}
use nixstr_cache.Manifest.Shape.{IsLink, IsShaped}
use nixstr_cache.Manifest.Links.{decode_links-IsLink, length-decode_links}
use nixstr_cache.Manifest.Checks.{check_links-IsShaped}

module _ (c : Codec) where
  pub record IsChecked (limits : Limits) (raw : Raw) (v : Validated) : Type 0 where
    pub decoded_bytes : v.decoded_bytes ≡ cost c.utf8 raw
    pub budget : v.decoded_bytes ≤ limits.max_decoded_bytes
    pub count : length (v.manifest).links ≤ limits.max_links
    pub links : All (IsLink (v.manifest).kind) (v.manifest).links
    pub shaped : IsShaped c (v.manifest).kind (v.manifest).links

  validate-IsChecked :
      (limits : Limits) (raw : Raw) {v : Validated}
      → validate c limits raw ≡ ok v
      → IsChecked limits raw v
  unfolding validate
  validate-IsChecked limits raw h =
      let (cheap, h1) = passes (leb (cost c.utf8 raw) limits.max_decoded_bytes) decoded_limit _ h in
      let (fs, _, h2) = >>=-eq-ok (as_object root_not_map raw) _ h1 in
      let (_, h3) = passes (exact_keys fs (txt "l" ∷ txt "t" ∷ [])) wrong_fields _ h2 in
      let (l, _, h4) = requires (find_field (txt "l") fs) links_not_array _ h3 in
      let (items, _, h5) = >>=-eq-ok (as_array l) _ h4 in
      let (few, h6) = passes (leb (length items) limits.max_links) links_limit _ h5 in
      let (t, _, h7) = requires (find_field (txt "t") fs) unsupported_type _ h6 in
      let (kind, _, h8) = >>=-eq-ok (manifest_kind t) _ h7 in
      let (ls, decoded, h9) = >>=-eq-ok (decode_links kind items) _ h8 in
      let (_, checked, last) = >>=-eq-ok (check_links c kind ls) _ h9 in
      let good = decode_links-IsLink kind items decoded in
      subst (IsChecked limits raw) (ok_injective last) (record {
        decoded_bytes = refl;
        budget = leb→le _ _ cheap;
        count = rw (length-decode_links kind items decoded) (leb→le _ _ few);
        links = good;
        shaped = check_links-IsShaped c kind ls good checked;
      })

  pub record IsValidated (limits : Limits) (wire : List ℕ) (v : Validated) : Type 0 where
    pub raw : Raw
    pub decodes : c.decode wire ≡ some raw
    pub canonical : c.encode raw ≡ wire
    pub fits : length wire ≤ limits.max_wire_bytes
    pub checked : IsChecked limits raw v

  -- A manifest that decodes comes from at most the allowed number of bytes, which are those that
  -- its value encodes to, and has at most the allowed number of links and decoded bytes. Each link
  -- has hashes of 32 bytes and a safe size. The links of a file are nameless parts; those of a
  -- directory have safe names, each below every later one by the bytes of their UTF-8; those of a
  -- fanout carry ranges, each of which ends before every later one begins.
  pub decode_validated-IsValidated :
      (limits : Limits) (bytes : List ℕ) {v : Validated}
      → decode_validated c bytes limits ≡ ok v
      → IsValidated limits bytes v
  unfolding decode_validated
  decode_validated-IsValidated limits bytes h =
      let (fits, h1) =
        passes (leb limits.max_wire_bytes max_safe && leb (length bytes) limits.max_wire_bytes)
          wire_limit _ h in
      let (raw, decodes, h2) = requires (c.decode bytes) malformed _ h1 in
      let (same, h3) = passes (text_eq (c.encode raw) bytes) not_canonical _ h2 in
      record {
        raw = raw;
        decodes = decodes;
        canonical = (text_eq_iff _ _).0 same;
        fits = ground arith;
        checked = validate-IsChecked limits raw h3;
      }
