-- ===== src/Manifest/Links.antt =====
-- src/protocol/hashtree.ts: the links of a manifest that decode, one by one.
use nixstr_cache.Prelude.{
  ℕ, suc, ◌≤◌, ◌≡◌, refl, ap, subst, true, Option, none, some, List, [], ◌∷◌, is_some, arith,
  length, all, All, Text, txt,
}
use nixstr_cache.Prelude.Result.{ok, >>=-eq-ok, passes, requires, ok_injective}
use nixstr_cache.Manifest.Value.{Raw, bin, num, Fields, find_field, keys_of}
use nixstr_cache.Manifest.{
  Link, Kind, file, directory, fanout, max_safe, bad_integer, not_32_bytes, unknown_field,
  missing_field, bad_link_type, link_not_map,
}
use nixstr_cache.Manifest.Decode.{
  uint, bytes32, perhaps, json_metadata, link_name, link_type, as_object, is_allowed, required_keys,
  decode_link, decode_links,
}
use nixstr_cache.Manifest.Shape.{KeyFits, NamedIn, IsLink}

uint-eq-ok : (v : Raw) {n : ℕ} → uint v ≡ ok n → n ≤ max_safe
unfolding uint
uint-eq-ok (num n) h = ground arith
uint-eq-ok _ h = cc

bytes32-eq-ok : (v : Raw) {b : List ℕ} → bytes32 v ≡ ok b → length b ≡ 32
unfolding bytes32
bytes32-eq-ok (bin b) h = ground arith
bytes32-eq-ok _ h = cc

perhaps-bytes32 : (o : Option Raw) {k : Option (List ℕ)} → perhaps bytes32 o ≡ ok k → KeyFits k
perhaps-bytes32 none h = subst KeyFits (ok_injective h) tt
perhaps-bytes32 (some v) h =
    let (b, e, last) = >>=-eq-ok (bytes32 v) _ h in
    subst KeyFits (ok_injective last) (bytes32-eq-ok v e)

link_name-is_some :
    (o : Option Raw) {n : Option Text}
    → is_some o ≡ true
    → perhaps link_name o ≡ ok n
    → is_some n ≡ true
link_name-is_some none s h = cc
link_name-is_some (some v) s h =
    let (n, _, last) = >>=-eq-ok (link_name v) _ h in
    subst (λ (o : Option Text). is_some o ≡ true) (ok_injective last) refl

named_in :
    (k : Kind) (fs : Fields) {n : Option Text}
    → all (λ key. is_some (find_field key fs)) (required_keys k) ≡ true
    → perhaps link_name (find_field (txt "n") fs) ≡ ok n
    → NamedIn k n
named_in file fs h e = tt
named_in fanout fs h e = tt
named_in directory fs h e = link_name-is_some (find_field (txt "n") fs) (ground arith) e

decode_link-IsLink : (k : Kind) (item : Raw) {l : Link} → decode_link k item ≡ ok l → IsLink k l
unfolding decode_link
decode_link-IsLink k item h =
    let (fs, _, h1) = >>=-eq-ok (as_object link_not_map item) _ h in
    let (_, h2) = passes (all (is_allowed k) (keys_of fs)) unknown_field _ h1 in
    let (there, h3) =
      passes (all (λ key. is_some (find_field key fs)) (required_keys k)) missing_field _ h2 in
    let (t, _, h4) = requires (find_field (txt "t") fs) bad_link_type _ h3 in
    let (_, _, h5) = >>=-eq-ok (link_type t) _ h4 in
    let (v, _, h6) = requires (find_field (txt "h") fs) not_32_bytes _ h5 in
    let (_, hashed, h7) = >>=-eq-ok (bytes32 v) _ h6 in
    let (_, keyed, h8) = >>=-eq-ok (perhaps bytes32 (find_field (txt "k") fs)) _ h7 in
    let (_, _, h9) = >>=-eq-ok (perhaps json_metadata (find_field (txt "m") fs)) _ h8 in
    let (_, named, h10) = >>=-eq-ok (perhaps link_name (find_field (txt "n") fs)) _ h9 in
    let (s, _, h11) = requires (find_field (txt "s") fs) bad_integer _ h10 in
    let (_, sized, last) = >>=-eq-ok (uint s) _ h11 in
    subst (IsLink k) (ok_injective last) (record {
      named = named_in k fs there named;
      hash = bytes32-eq-ok v hashed;
      key = perhaps-bytes32 (find_field (txt "k") fs) keyed;
      size = uint-eq-ok s sized;
    })

pub length-decode_links :
    (k : Kind) (items : List Raw) {ls : List Link}
    → decode_links k items ≡ ok ls
    → length ls ≡ length items
unfolding decode_links
length-decode_links k [] h = subst (λ (ls : List Link). length ls ≡ 0) (ok_injective h) refl
length-decode_links k (x ∷ xs) h =
    let (l, e, h1) = >>=-eq-ok (decode_link k x) _ h in
    let (ls, es, last) = >>=-eq-ok (decode_links k xs) _ h1 in
    subst (λ (ms : List Link). length ms ≡ suc (length xs)) (ok_injective last)
      (ap suc (length-decode_links k xs es))

pub decode_links-IsLink :
    (k : Kind) (items : List Raw) {ls : List Link}
    → decode_links k items ≡ ok ls
    → All (IsLink k) ls
unfolding decode_links
decode_links-IsLink k [] h = subst (All (IsLink k)) (ok_injective h) tt
decode_links-IsLink k (x ∷ xs) h =
    let (l, e, h1) = >>=-eq-ok (decode_link k x) _ h in
    let (ls, es, last) = >>=-eq-ok (decode_links k xs) _ h1 in
    subst (All (IsLink k)) (ok_injective last)
      (decode_link-IsLink k x e, decode_links-IsLink k xs es)
