-- ===== src/Publication/Laws.antt =====
-- src/protocol/publication.ts: what a publication that passes the validation has.
use nixstr_cache.Prelude.{
  ℕ, ◌≡◌, inl, inr, refl, ap, subst, ◌∙◌, true, false, not, ◌&&◌, Option, none, some, List, [], ◌∷◌,
  ◌==◌, if◌then◌else◌, arith, is_some, length, All, Text, text_eq, text_eq_iff, lookup, insert,
  lookup-insert, text_eq_refl, text_eq_sound, cut, has_char, and_cases, Bool-cases, ==_iff,
}
use nixstr_cache.Prelude.Result.{ok, ensure, require, >>=-eq-ok, ensure-eq-ok, ok_injective}
use nixstr_cache.Nhash.{hex}
use nixstr_cache.SourcePlan.{is_empty}
use nixstr_cache.Publication.{
  pair_value, key_base64, NixKey, nix_signature_key, Platform, Keys, renames, add_key, valid_label,
  decode_key, parse_key, collect_keys,
}

pub require-eq-ok : {E A : Type 0} (o : Option A) (e : E) {a : A} → require o e ≡ ok a → o ≡ some a
require-eq-ok none e h = cc
require-eq-ok (some a) e h = ap some (ok_injective h)

-- The key of a tag is the one of its name, and it is among the keys.
pub record Declared (p : Platform) (ks : Keys) (tag : List Text) : Type 0 where
  pub key : NixKey
  pub parsed : parse_key p tag ≡ ok key
  pub named : lookup key.name ks.names ≡ some (hex key.bytes)
  pub listed : is_some (lookup (hex key.bytes) ks.by_bytes) ≡ true

-- A key of 32 bytes in canonical base64, kept under its hex.
pub record IsKey (p : Platform) (e : Text × NixKey) : Type 0 where
  pub filed : e.0 ≡ hex (e.1).bytes
  pub size : length (e.1).bytes ≡ 32
  pub canonical : p.btoa (e.1).bytes ≡ (e.1).encoded

hex-nonempty : (bs : List ℕ) → length bs ≡ 32 → is_empty (hex bs) ≡ false
unfolding hex
hex-nonempty [] h = ground (arith, h)
hex-nonempty (b ∷ bs) h = refl

-- The keys after one more.
abbrev with_key : NixKey → Keys → Keys
with_key k ks = record {
  names = insert k.name (hex k.bytes) ks.names;
  by_bytes =
      if is_some (lookup (hex k.bytes) ks.by_bytes)
      then ks.by_bytes
      else insert (hex k.bytes) k ks.by_bytes;
}

add_key-eq-ok :
    (k : NixKey) (ks : Keys) {ks' : Keys}
    → add_key k ks ≡ ok ks'
    → (renames (lookup k.name ks.names) (hex k.bytes) ≡ false) × (with_key k ks ≡ ks')
unfolding add_key
add_key-eq-ok k ks h =
    let (u, e, last) =
      >>=-eq-ok (ensure (not (renames (lookup k.name ks.names) (hex k.bytes))) nix_signature_key) _
        h in
    (ground (arith, ensure-eq-ok _ _ e), ok_injective last)

-- A name keeps its hex.
names_kept :
    (k : NixKey) (ks : Keys) (name key : Text)
    → renames (lookup k.name ks.names) (hex k.bytes) ≡ false
    → is_empty key ≡ false
    → lookup name ks.names ≡ some key
    → lookup name (insert k.name (hex k.bytes) ks.names) ≡ some key
unfolding renames
names_kept k ks name key h n e =
    lookup-insert k.name name (hex k.bytes) ks.names ∙ elim (Bool-cases (text_eq k.name name)) [
      | inl same ↦ ground (arith, text_eq_iff k.name name, text_eq_iff key (hex k.bytes))
      | inr other ↦ rw other e
    ]

listed_kept :
    (k : NixKey) (ks : Keys) (key : Text)
    → is_some (lookup key ks.by_bytes) ≡ true
    → is_some (lookup key (with_key k ks).by_bytes) ≡ true
listed_kept k ks key h = elim (Bool-cases (is_some (lookup (hex k.bytes) ks.by_bytes))) [
  | inl e ↦ rw e h
  | inr e ↦ rw (e, lookup-insert (hex k.bytes) key k ks.by_bytes) (ground arith)
]

listed_new :
    (k : NixKey) (ks : Keys) → is_some (lookup (hex k.bytes) (with_key k ks).by_bytes) ≡ true
listed_new k ks = elim (Bool-cases (is_some (lookup (hex k.bytes) ks.by_bytes))) [
  | inl e ↦ rw e e
  | inr e ↦
      rw (e, lookup-insert (hex k.bytes) (hex k.bytes) k ks.by_bytes, text_eq_refl (hex k.bytes))
        refl
]

module _ (p : Platform) where
  decode_key-eq-ok :
      (encoded : Text) {bytes : List ℕ}
      → decode_key p encoded ≡ ok bytes
      → (length bytes ≡ 32) × (p.btoa bytes ≡ encoded)
  unfolding decode_key
  decode_key-eq-ok encoded h =
      let (b, _, h1) = >>=-eq-ok (require (p.atob encoded) nix_signature_key) _ h in
      let (_, e, h2) =
        >>=-eq-ok (ensure (length b == 32 && text_eq (p.btoa b) encoded) nix_signature_key) _ h1 in
      let (f, g) = and_cases _ _ (ensure-eq-ok _ _ e) in
      subst (λ x. (length x ≡ 32) × (p.btoa x ≡ encoded)) (ok_injective h2)
        ((==_iff (length b) 32).0 f, text_eq_sound _ _ g)

  pub parse_key-IsKey :
      (tag : List Text) {k : NixKey} → parse_key p tag ≡ ok k → IsKey p (hex k.bytes, k)
  unfolding parse_key
  parse_key-IsKey tag h =
      let (value, _, h1) = >>=-eq-ok (require (pair_value tag) nix_signature_key) _ h in
      let (parts, _, h2) = >>=-eq-ok (require (cut b':' value) nix_signature_key) _ h1 in
      let (_, _, h3) =
        >>=-eq-ok
          (ensure (not (is_empty (parts.0)) && not (has_char b':' (parts.1))) nix_signature_key) _
          h2 in
      let (_, _, h4) =
        >>=-eq-ok (ensure (valid_label p (parts.0) && key_base64 0 (parts.1)) nix_signature_key) _
          h3 in
      let (bytes, e, h5) = >>=-eq-ok (decode_key p (parts.1)) _ h4 in
      let (f, g) = decode_key-eq-ok (parts.1) e in
      subst (λ x. IsKey p (hex x.bytes, x)) (ok_injective h5)
        (record { filed = refl; size = f; canonical = g })

  add_key-Declared :
      (k : NixKey) (ks : Keys) {ks' : Keys} (tag : List Text)
      → add_key k ks ≡ ok ks'
      → Declared p ks tag
      → Declared p ks' tag
  add_key-Declared k ks tag h v =
      let (f, g) = add_key-eq-ok k ks h in
      subst (λ x. Declared p x tag) g
        (record {
          key = v.key;
          parsed = v.parsed;
          named =
              names_kept k ks (v.key).name (hex (v.key).bytes) f
                (hex-nonempty _ (parse_key-IsKey tag v.parsed).size) v.named;
          listed = listed_kept k ks (hex (v.key).bytes) v.listed;
        })

  add_key_new :
      (k : NixKey) (ks : Keys) {ks' : Keys} (tag : List Text)
      → parse_key p tag ≡ ok k
      → add_key k ks ≡ ok ks'
      → Declared p ks' tag
  add_key_new k ks tag e h =
      let (f, g) = add_key-eq-ok k ks h in
      subst (λ x. Declared p x tag) g
        (record {
          key = k;
          parsed = e;
          named =
              lookup-insert k.name k.name (hex k.bytes) ks.names ∙ rw (text_eq_refl k.name) refl;
          listed = listed_new k ks;
        })

  All-insert :
      (k : NixKey) (m : List (Text × NixKey))
      → IsKey p (hex k.bytes, k)
      → All (IsKey p) m
      → All (IsKey p) (insert (hex k.bytes) k m)
  unfolding insert
  All-insert k [] h v = (h, tt)
  All-insert k ((j, w) ∷ m) h (a, v) = elim (Bool-cases (text_eq j (hex k.bytes))) [
    | inl e ↦
        rw e (record { filed = text_eq_sound _ _ e; size = h.size; canonical = h.canonical }, v)
    | inr e ↦ rw e (a, All-insert k m h v)
  ]

  add_key-IsKey :
      (k : NixKey) (ks : Keys) {ks' : Keys}
      → IsKey p (hex k.bytes, k)
      → add_key k ks ≡ ok ks'
      → All (IsKey p) ks.by_bytes
      → All (IsKey p) ks'.by_bytes
  add_key-IsKey k ks i h v =
      subst (λ (x : Keys). All (IsKey p) x.by_bytes) ((add_key-eq-ok k ks h).1)
        (elim (Bool-cases (is_some (lookup (hex k.bytes) ks.by_bytes))) [
          | inl e ↦ rw e v
          | inr e ↦ rw e (All-insert k ks.by_bytes i v)
        ])

  pub collect_keys-Declared :
      (tags : List (List Text)) (ks : Keys) {ks' : Keys}
      → collect_keys p tags ks ≡ ok ks'
      → All (IsKey p) ks.by_bytes
      → ((t : List Text) → Declared p ks t → Declared p ks' t)
        × All (Declared p ks') tags
        × All (IsKey p) ks'.by_bytes
  unfolding collect_keys
  collect_keys-Declared [] ks h v = (
    λ t d. subst (λ x. Declared p x t) (ok_injective h) d,
    tt,
    subst (λ (x : Keys). All (IsKey p) x.by_bytes) (ok_injective h) v,
  )
  collect_keys-Declared (tag ∷ tags) ks {ks'} h v =
      let (k, e, h1) = >>=-eq-ok (parse_key p tag) _ h in
      let (ks1, f, h2) = >>=-eq-ok (add_key k ks) _ h1 in
      let (kept, all_later, keys) =
        collect_keys-Declared tags ks1 h2 (add_key-IsKey k ks (parse_key-IsKey tag e) f v) in
      (
        λ t d. kept t (add_key-Declared k ks t f d),
        (kept tag (add_key_new k ks tag e f), all_later),
        keys,
      )
