-- ===== src/Publication/Accepted.antt =====
-- src/protocol/publication.ts: what a publication that passes the validation is, and the text that
-- names its cache.
use nixstr_cache.Prelude.{
  ℕ, ◌+◌, ◌≤◌, ◌<◌, ◌≡◌, ◌⊎◌, inl, inr, refl, sym, ap, subst, ◌∙◌, true, not, ◌&&◌, ◌||◌, Option,
  none, some, List, [], ◌∷◌, map, ltb, leb, ◌==◌, arith, length, All, Text, txt, strip, and_cases,
  ==_iff, leb→le, ltb→lt, decimal_value, any,
}
use nixstr_cache.Prelude.Result.{
  Result, ok, err, ensure, require, >>=-eq-ok, ensure-eq-ok, ok_injective,
}
use nixstr_cache.Nhash.{PlaintextRoot, decode_nhash}
use nixstr_cache.SourcePlan.{is_empty}
use nixstr_cache.Publication.{
  RawPublication, NixKey, Validated, invalid_event, future, expired, identity_invalid, htree,
  resource_limit, Platform, max_safe, tags_named, single_value, within_limits, Keys, valid_label,
  nhash_code, is_decimal, collect_keys, parse_nix_keys, name_of, root_of_tags, expiry_of,
  check_event, validate,
}
use nixstr_cache.Publication.Laws.{require-eq-ok, Declared, IsKey, collect_keys-Declared}

-- A default cache has no `d` tag, a named one has one valid label.
pub record IsDefault (raw : RawPublication) (name : Option Text) : Type 0 where
  pub kind : raw.kind ≡ 17091
  pub untagged : length (tags_named (txt "d") raw) ≡ 0
  pub nameless : name ≡ none

pub record IsNamed (p : Platform) (raw : RawPublication) (name : Option Text) : Type 0 where
  pub kind : raw.kind ≡ 37091
  pub label : Text
  pub tagged : single_value (tags_named (txt "d") raw) ≡ some label
  pub valid : valid_label p label ≡ true
  pub named : name ≡ some label

-- The keys that the tags declare: one for a name, each among the keys.
pub record IsKeyring (p : Platform) (raw : RawPublication) (keys : List NixKey) : Type 0 where
  pub found : Keys
  pub listed : keys ≡ map (λ (e : Text × NixKey). e.1) found.by_bytes
  pub declared : All (Declared p found) (tags_named (txt "nixSigKey") raw)
  pub sound : All (IsKey p) found.by_bytes

pub record IsRooted (p : Platform) (raw : RawPublication) (root : PlaintextRoot) : Type 0 where
  pub value : Text
  pub nhash : Text
  pub tagged : single_value (tags_named (txt "htree") raw) ≡ some value
  pub stripped : strip (txt "htree://") value ≡ some nhash
  pub decoded : decode_nhash p.bech32 p.lower nhash ≡ ok root

-- The time in the only expiration tag: decimal, within the safe integers and after `now`.
pub record IsExpiring (raw : RawPublication) (now : ℕ) (expires_at : Option ℕ) : Type 0 where
  pub value : Text
  pub tagged : single_value (tags_named (txt "expiration") raw) ≡ some value
  pub decimal : is_decimal value ≡ true
  pub safe : decimal_value 0 value ≤ 9007199254740991
  pub later : now < decimal_value 0 value
  pub kept : expires_at ≡ some (decimal_value 0 value)

-- There is no expiration tag and no time, or the time of the tag is still to come.
abbrev pub IsLive : RawPublication → ℕ → Option ℕ → Type 0
IsLive raw now expires_at =
    ((tags_named (txt "expiration") raw ≡ []) × (expires_at ≡ none)) ⊎ IsExpiring raw now expires_at

pub record IsAccepted (p : Platform) (raw : RawPublication) (now : ℕ) (v : Validated) : Type 0 where
  pub event : v.event ≡ raw
  pub identity : ((v.identity).kind ≡ raw.kind) × ((v.identity).pubkey ≡ raw.pubkey)
  pub verified : p.verify_event raw ≡ some true
  pub timely : raw.created_at ≤ now + 900
  pub name : IsDefault raw (v.identity).name ⊎ IsNamed p raw (v.identity).name
  pub root : IsRooted p raw v.root
  pub keys : IsKeyring p raw v.nix_keys
  pub live : IsLive raw now v.expires_at

module _ (p : Platform) where
  check_event-eq-ok :
      (raw : RawPublication) (now : ℕ) {u : Unit {0}}
      → check_event p raw now ≡ ok u
      → (p.verify_event raw ≡ some true)
        × (raw.created_at ≤ now + 900)
        × ((raw.kind ≡ 17091) ⊎ (raw.kind ≡ 37091))
  unfolding check_event
  check_event-eq-ok raw now h =
      let (_, _, h1) =
        >>=-eq-ok (ensure (leb now max_safe && leb raw.created_at max_safe) invalid_event) _ h in
      let (_, _, h2) = >>=-eq-ok (ensure (within_limits raw) resource_limit) _ h1 in
      let (b, e, h3) = >>=-eq-ok (require (p.verify_event raw) invalid_event) _ h2 in
      let (_, f, h4) = >>=-eq-ok (ensure b invalid_event) _ h3 in
      let (_, g, h5) = >>=-eq-ok (ensure (leb raw.created_at (now + 900)) future) _ h4 in
      (
        require-eq-ok _ _ e ∙ ap some (ensure-eq-ok _ _ f),
        leb→le _ _ (ensure-eq-ok _ _ g),
        kind_cases raw.kind (ensure-eq-ok _ _ h5),
      )
    where
      kind_cases : (k : ℕ) → (k == 17091 || k == 37091) ≡ true → (k ≡ 17091) ⊎ (k ≡ 37091)
      kind_cases k e = ground (arith, ==_iff k 17091, ==_iff k 37091)

  name_of-default :
      (raw : RawPublication) (name : Option Text)
      → raw.kind ≡ 17091
      → name_of p raw.kind (tags_named (txt "d") raw) ≡ ok name
      → IsDefault raw name
  unfolding name_of
  name_of-default raw name e h =
      let (_, f, h1) =
        >>=-eq-ok (ensure (length (tags_named (txt "d") raw) == 0) identity_invalid) _
          (subst (λ k. name_of p k (tags_named (txt "d") raw) ≡ ok name) e h) in
      record {
        kind = e;
        untagged = (==_iff _ 0).0 (ensure-eq-ok _ _ f);
        nameless = sym (ok_injective h1);
      }

  name_of-named :
      (raw : RawPublication) (name : Option Text)
      → raw.kind ≡ 37091
      → name_of p raw.kind (tags_named (txt "d") raw) ≡ ok name
      → IsNamed p raw name
  unfolding name_of
  name_of-named raw name e h =
      let (l, f, h1) =
        >>=-eq-ok (require (single_value (tags_named (txt "d") raw)) identity_invalid) _
          (subst (λ k. name_of p k (tags_named (txt "d") raw) ≡ ok name) e h) in
      let (_, g, h2) = >>=-eq-ok (ensure (valid_label p l) identity_invalid) _ h1 in
      record {
        kind = e;
        label = l;
        tagged = require-eq-ok _ _ f;
        valid = ensure-eq-ok _ _ g;
        named = sym (ok_injective h2);
      }

  root_of_tags-eq-ok :
      (raw : RawPublication) {root : PlaintextRoot}
      → root_of_tags p (tags_named (txt "htree") raw) ≡ ok root
      → IsRooted p raw root
  unfolding root_of_tags
  root_of_tags-eq-ok raw h =
      let (value, e, h1) =
        >>=-eq-ok (require (single_value (tags_named (txt "htree") raw)) htree) _ h in
      let (nhash, f, h2) = >>=-eq-ok (require (strip (txt "htree://") value) htree) _ h1 in
      let (_, _, h3) =
        >>=-eq-ok
          (ensure
            (not (is_empty nhash) && not (any (λ c. c == b'/' || c == b'?' || c == b'#') nhash))
            htree)
          _ h2 in
      record {
        value = value;
        nhash = nhash;
        tagged = require-eq-ok _ _ e;
        stripped = require-eq-ok _ _ f;
        decoded = decoded_of (decode_nhash p.bech32 p.lower nhash) h3;
      }
    where
      decoded_of :
          (r : Result _ PlaintextRoot) {root : PlaintextRoot}
          → elim r [ ok x ↦ ok x | err e ↦ err (nhash_code p e) ] ≡ Result.ok root
          → r ≡ ok root
      decoded_of (ok x) e = ap ok (ok_injective e)
      decoded_of (err x) e = ground arith

  parse_nix_keys-IsKeyring :
      (raw : RawPublication) {keys : List NixKey}
      → parse_nix_keys p (tags_named (txt "nixSigKey") raw) ≡ ok keys
      → IsKeyring p raw keys
  unfolding parse_nix_keys
  parse_nix_keys-IsKeyring raw h =
      let (ks, e, h1) =
        >>=-eq-ok
          (collect_keys p (tags_named (txt "nixSigKey") raw) (record { names = []; by_bytes = [] }))
          _ h in
      let (_, declared, sound) = collect_keys-Declared p _ _ e tt in
      record { found = ks; listed = sym (ok_injective h1); declared = declared; sound = sound }

  expiry_of-IsLive :
      (raw : RawPublication) (now : ℕ) (tags : List (List Text)) {e : Option ℕ}
      → tags_named (txt "expiration") raw ≡ tags
      → expiry_of p now tags ≡ ok e
      → IsLive raw now e
  unfolding expiry_of
  expiry_of-IsLive raw now [] f h = inl (f, sym (ok_injective h))
  expiry_of-IsLive raw now (t ∷ ts) f h =
      let (value, e1, h1) = >>=-eq-ok (require (single_value (t ∷ ts)) expired) _ h in
      let (_, e2, h2) = >>=-eq-ok (ensure (is_decimal value) expired) _ h1 in
      let (_, e3, h3) =
        >>=-eq-ok
          (ensure (leb (decimal_value 0 value) max_safe && ltb now (decimal_value 0 value)) expired)
          _ h2 in
      let (safe, later) = and_cases _ _ (ensure-eq-ok _ _ e3) in
      inr (record {
        value = value;
        tagged = ap single_value f ∙ require-eq-ok _ _ e1;
        decimal = ensure-eq-ok _ _ e2;
        safe = leb→le _ _ safe;
        later = ltb→lt _ _ later;
        kept = sym (ok_injective h3);
      })

  name_of-eq-ok :
      (raw : RawPublication) {name : Option Text}
      → (raw.kind ≡ 17091) ⊎ (raw.kind ≡ 37091)
      → name_of p raw.kind (tags_named (txt "d") raw) ≡ ok name
      → IsDefault raw name ⊎ IsNamed p raw name
  name_of-eq-ok raw (inl e) h = inl (name_of-default raw _ e h)
  name_of-eq-ok raw (inr e) h = inr (name_of-named raw _ e h)

  -- A publication that is accepted is verified and at most 15 minutes ahead; it is a default cache
  -- without a `d` tag or a named one whose one `d` tag is a valid label; its root is the decoded one
  -- of its only htree tag; each of its key tags declares a key of 32 bytes in canonical base64 that
  -- is the only one of its name and is among the keys; and it has no expiration tag and no time of
  -- expiry, or its only expiration tag is a decimal number up to 2 ^ 53 - 1 that is later than now
  -- and is its time of expiry.
  pub validate-IsAccepted :
      (raw : RawPublication) (now : ℕ) {v : Validated}
      → validate p raw now ≡ ok v
      → IsAccepted p raw now v
  unfolding validate
  validate-IsAccepted raw now h =
      let (_, e1, h1) = >>=-eq-ok (check_event p raw now) _ h in
      let (name, e2, h2) = >>=-eq-ok (name_of p raw.kind (tags_named (txt "d") raw)) _ h1 in
      let (root, e3, h3) = >>=-eq-ok (root_of_tags p (tags_named (txt "htree") raw)) _ h2 in
      let (keys, e4, h4) = >>=-eq-ok (parse_nix_keys p (tags_named (txt "nixSigKey") raw)) _ h3 in
      let (expiry, e5, h5) = >>=-eq-ok (expiry_of p now (tags_named (txt "expiration") raw)) _ h4 in
      let (verified, timely, kind) = check_event-eq-ok raw now e1 in
      subst (IsAccepted p raw now) (ok_injective h5) (record {
        event = refl;
        identity = (refl, refl);
        verified = verified;
        timely = timely;
        name = name_of-eq-ok raw kind e2;
        root = root_of_tags-eq-ok raw e3;
        keys = parse_nix_keys-IsKeyring raw e4;
        live = expiry_of-IsLive raw now (tags_named (txt "expiration") raw) refl e5;
      })
