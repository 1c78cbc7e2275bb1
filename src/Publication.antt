-- ===== src/Publication.antt =====
-- src/protocol/publication.ts: the validation of a cache publication. `verifyEvent`, the UTF-8
-- encoder, `atob`, `btoa` and `URL` are parameters; timestamps and kinds are natural numbers.
pub mod Laws
pub mod Accepted
pub mod CacheName
use nixstr_cache.Prelude.{
  ℕ, ◌+◌, ◌≡◌, Bool, true, false, not, ◌&&◌, ◌||◌, Option, none, some, List, [], ◌∷◌, ◌++◌, map,
  ltb, leb, ◌==◌, if◌then◌else◌, is_some, length, keep, any, all, Text, txt, text_eq, lookup,
  insert, has_char, strip, cut, is_digit, is_space, decimal_value, decimal,
}
use nixstr_cache.Prelude.Result.{Result, ok, err, ◌>>=◌, ◌>>◌, ensure, require}
use nixstr_cache.NarInfo.{is_base64_char, base64_tail}
use nixstr_cache.Nhash.{Bech32, PlaintextRoot, unsupported_encryption, decode_nhash, hex}
use nixstr_cache.SourcePlan.{is_empty, trim_slashes}
use nixstr_cache.Nhash

-- `RawPublication`.
pub record RawPublication : Type 0 where
  pub id : Text
  pub pubkey : Text
  pub created_at : ℕ
  pub kind : ℕ
  pub tags : List (List Text)
  pub content : Text
  pub sig : Text

-- `PublicationIdentity`.
pub record Identity : Type 0 where
  pub kind : ℕ
  pub pubkey : Text
  pub name : Option Text

-- `NixSignatureKey`.
pub record NixKey : Type 0 where
  pub name : Text
  pub encoded : Text
  pub bytes : List ℕ

-- `ValidatedPublication`.
pub record Validated : Type 0 where
  pub event : RawPublication
  pub identity : Identity
  pub root : PlaintextRoot
  pub nix_keys : List NixKey
  pub blossom_servers : List Text
  pub expires_at : Option ℕ

-- `PublicationRejectionCode`; the messages are left out.
pub data Code : Type 0 where
  invalid_event future expired kind_unsupported identity_invalid htree nhash_invalid : Code
  encrypted nix_signature_key resource_limit : Code

-- The parts of a URL that `validBlossomUrl` reads.
pub record Url : Type 0 where
  pub protocol : Text
  pub username : Text
  pub password : Text
  pub hostname : Text
  pub search : Text
  pub hash : Text

-- What the platform and the libraries supply; a `none` is an error that is thrown.
pub record Platform : Type 0 where
  pub utf8 : Text → List ℕ
  pub atob : Text → Option (List ℕ)
  pub btoa : List ℕ → Text
  pub lower : Text → Text
  pub bech32 : Bech32
  pub parse_url : Text → Option Url
  pub verify_event : RawPublication → Option Bool

-- `Number.MAX_SAFE_INTEGER`.
abbrev pub max_safe : ℕ
max_safe = 9007199254740991

-- `tag[0] === name`.
unfoldable pub is_tag : Text → List Text → Bool
is_tag name [] = false
is_tag name (t ∷ ts) = text_eq t name

unfoldable pub tags_named : Text → RawPublication → List (List Text)
unfolding is_tag
tags_named name raw = keep (is_tag name) raw.tags

-- The second field of a tag of two fields.
unfoldable pub pair_value : List Text → Option Text
pair_value [] = none
pair_value (_ ∷ []) = none
pair_value (_ ∷ v ∷ []) = some v
pair_value (_ ∷ _ ∷ _ ∷ _) = none

-- The second field of the one tag of a list.
unfoldable pub single_value : List (List Text) → Option Text
unfolding pair_value
single_value [] = none
single_value (t ∷ []) = pair_value t
single_value (_ ∷ _ ∷ _) = none

-- The checks of `raw.tags` and `raw.content`.
unfoldable pub within_limits : RawPublication → Bool
within_limits raw =
    leb (length raw.tags) 256
    && leb (length raw.content) 65536
    && all (λ (t : List Text). leb (length t) 8 && all (λ (f : Text). leb (length f) 4096) t)
        raw.tags

-- `/^[A-Za-z0-9+/]{43}=$/`.
unfoldable pub key_base64 : ℕ → Text → Bool
unfolding is_base64_char
key_base64 n [] = false
key_base64 n (c ∷ s) =
    if n == 43 then c == b'=' && is_empty s else is_base64_char c && key_base64 (n + 1) s

-- `/^(0|[1-9][0-9]*)$/`.
unfoldable pub is_decimal : Text → Bool
unfolding is_digit
is_decimal [] = false
is_decimal (c ∷ s) = if c == b'0' then is_empty s else is_digit c && all is_digit s

-- What the loop of `parseNixKeys` has collected: the hex of each name, and the keys by their hex.
pub record Keys : Type 0 where
  pub names : List (Text × Text)
  pub by_bytes : List (Text × NixKey)

-- `prior && prior !== keyHex`.
unfoldable pub renames : Option Text → Text → Bool
renames none key = false
renames (some prior) key = not (is_empty prior) && not (text_eq prior key)

unfoldable pub add_key : NixKey → Keys → Result Code Keys
unfolding hex renames
add_key k ks = do
  ensure (not (renames (lookup k.name ks.names) (hex k.bytes))) nix_signature_key
  ok (record {
    names = insert k.name (hex k.bytes) ks.names;
    by_bytes =
        if is_some (lookup (hex k.bytes) ks.by_bytes)
        then ks.by_bytes
        else insert (hex k.bytes) k ks.by_bytes;
  })

module _ (p : Platform) where
  unfoldable pub valid_label : Text → Bool
  unfolding is_space
  valid_label value =
      let size = length (p.utf8 value) in
      leb 1 size && leb size 64 && not (any (λ c. is_space c || ltb c 32 || c == 127) value)

  unfoldable pub decode_key : Text → Result Code (List ℕ)
  decode_key encoded = do
    bytes ← require (p.atob encoded) nix_signature_key
    ensure (length bytes == 32 && text_eq (p.btoa bytes) encoded) nix_signature_key
    ok bytes

  -- The key that a tag declares.
  unfoldable pub parse_key : List Text → Result Code NixKey
  unfolding pair_value valid_label key_base64 decode_key
  parse_key tag = do
    value ← require (pair_value tag) nix_signature_key
    parts ← require (cut b':' value) nix_signature_key
    ensure (not (is_empty (parts.0)) && not (has_char b':' (parts.1))) nix_signature_key
    ensure (valid_label (parts.0) && key_base64 0 (parts.1)) nix_signature_key
    bytes ← decode_key (parts.1)
    ok (record { name = parts.0; encoded = parts.1; bytes = bytes })

  unfoldable pub collect_keys : List (List Text) → Keys → Result Code Keys
  unfolding parse_key add_key
  collect_keys [] ks = ok ks
  collect_keys (tag ∷ tags) ks = parse_key tag >>= (λ k. add_key k ks >>= collect_keys tags)

  -- `parseNixKeys`, given the tags that it filters.
  unfoldable pub parse_nix_keys : List (List Text) → Result Code (List NixKey)
  unfolding collect_keys
  parse_nix_keys tags =
      collect_keys tags (record { names = []; by_bytes = [] })
      >>= (λ ks. ok (map (λ (e : Text × NixKey). e.1) ks.by_bytes))

  -- `validBlossomUrl`.
  unfoldable pub valid_blossom_url : Text → Option Text
  unfolding trim_slashes
  valid_blossom_url value = elim (p.parse_url value) [
    | none ↦ none
    | some u ↦
        if (text_eq u.protocol (txt "http:") || text_eq u.protocol (txt "https:"))
          && is_empty u.username
          && is_empty u.password
          && not (is_empty u.hostname)
          && is_empty u.search
          && is_empty u.hash
        then some (trim_slashes value)
        else none
  ]

  unfoldable pub blossom_servers_of : List (List Text) → List Text
  unfolding pair_value valid_blossom_url
  blossom_servers_of [] = []
  blossom_servers_of (t ∷ ts) = elim (pair_value t) [
    | none ↦ blossom_servers_of ts
    | some v ↦ elim (valid_blossom_url v) [
      | none ↦ blossom_servers_of ts
      | some url ↦ url ∷ blossom_servers_of ts
    ]
  ]

  -- The name of a cache, from its `d` tags.
  unfoldable pub name_of : ℕ → List (List Text) → Result Code (Option Text)
  unfolding single_value valid_label
  name_of kind d_tags =
      if kind == 17091
      then (ensure (length d_tags == 0) identity_invalid >> ok none)
      else (require (single_value d_tags) identity_invalid
          >>= (λ name. ensure (valid_label name) identity_invalid >> ok (some name)))

  abbrev pub nhash_code : Nhash.Error → Code
  nhash_code unsupported_encryption = encrypted
  nhash_code _ = nhash_invalid

  unfoldable pub root_of_tags : List (List Text) → Result Code PlaintextRoot
  unfolding single_value
  root_of_tags tags = do
    value ← require (single_value tags) htree
    nhash ← require (strip (txt "htree://") value) htree
    ensure (not (is_empty nhash) && not (any (λ c. c == b'/' || c == b'?' || c == b'#') nhash))
        htree
    elim (decode_nhash p.bech32 p.lower nhash) [ ok root ↦ ok root | err e ↦ err (nhash_code e) ]

  unfoldable pub expiry_of : ℕ → List (List Text) → Result Code (Option ℕ)
  unfolding single_value is_decimal
  expiry_of now [] = ok none
  expiry_of now (t ∷ ts) = do
    value ← require (single_value (t ∷ ts)) expired
    ensure (is_decimal value) expired
    ensure (leb (decimal_value 0 value) max_safe && ltb now (decimal_value 0 value)) expired
    ok (some (decimal_value 0 value))

  -- The checks up to the kind, in their order.
  unfoldable pub check_event : RawPublication → ℕ → Result Code (Unit {0})
  unfolding within_limits
  check_event raw now = do
    ensure (leb now max_safe && leb raw.created_at max_safe) invalid_event
    ensure (within_limits raw) resource_limit
    verified ← require (p.verify_event raw) invalid_event
    ensure verified invalid_event
    ensure (leb raw.created_at (now + 900)) future
    ensure (raw.kind == 17091 || raw.kind == 37091) kind_unsupported

  -- `validatePublication`.
  unfoldable pub validate : RawPublication → ℕ → Result Code Validated
  unfolding check_event name_of root_of_tags parse_nix_keys expiry_of blossom_servers_of
  validate raw now = do
    check_event raw now
    name ← name_of raw.kind (tags_named (txt "d") raw)
    root ← root_of_tags (tags_named (txt "htree") raw)
    keys ← parse_nix_keys (tags_named (txt "nixSigKey") raw)
    expires_at ← expiry_of now (tags_named (txt "expiration") raw)
    ok (record {
      event = raw;
      identity = record { kind = raw.kind; pubkey = raw.pubkey; name = name };
      root = root;
      nix_keys = keys;
      blossom_servers = blossom_servers_of (tags_named (txt "blossom") raw);
      expires_at = expires_at;
    })

-- `name ?? ""`.
abbrev pub name_text : Option Text → Text
name_text none = []
name_text (some name) = name

-- `cacheIdentity`.
unfoldable pub cache_identity : Identity → Text
cache_identity i = decimal i.kind ++ (b':' ∷ (i.pubkey ++ (b':' ∷ name_text i.name)))
