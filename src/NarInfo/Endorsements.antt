-- ===== src/NarInfo/Endorsements.antt =====
-- src/protocol/narinfo.ts: which signatures of a record the keys endorse.
use nixstr_cache.Prelude.{
  ℕ, suc, ◌≡◌, refl, sym, ap, subst, ◌∙◌, Bool, true, false, Option, none, some, List, [], ◌∷◌,
  ◌++◌, arith, append_assoc, append-nil, Bool-cases, is_some, length, length-append, take,
  get_elem?, any, All, Text, inl, inr,
}
use nixstr_cache.Prelude.Result.{ok}
use nixstr_cache.NarInfo.{NarInfo, Signature}
use nixstr_cache.NarInfo.Ops.{SignatureKey, Endorsement, find_key, classify_from, classify}

-- A place is the first at which a test holds, or there is none.
abbrev pub IsFirst : {A : Type 0} → (A → Bool) → List A → Option ℕ → Type 0
IsFirst p xs none = any p xs ≡ false
IsFirst {A} p xs (some i) =
    (x : A) × (get_elem? xs i ≡ some x) × (p x ≡ true) × (any p (take i xs) ≡ false)

module _ {A : Type 0} where
  get_elem?-append : (xs ys : List A) (y : A) → get_elem? (xs ++ y ∷ ys) (length xs) ≡ some y
  get_elem?-append [] ys y = refl
  get_elem?-append (x ∷ xs) ys y = get_elem?-append xs ys y

  take-append : (xs ys : List A) → take (length xs) (xs ++ ys) ≡ xs
  take-append [] ys = ground arith
  take-append (x ∷ xs) ys = ap (◌∷◌ x) (take-append xs ys)

  any-append_false :
      (p : A → Bool) (xs : List A) (y : A)
      → any p xs ≡ false
      → p y ≡ false
      → any p (xs ++ y ∷ []) ≡ false
  any-append_false p [] y h k = ground arith
  any-append_false p (x ∷ xs) y h k = ground (arith, any-append_false p xs y)

  length-snoc : (xs : List A) (y : A) → length (xs ++ y ∷ []) ≡ suc (length xs)
  length-snoc xs y = omega (arith, length-append xs (y ∷ []))

module _ (verify : List ℕ → List ℕ → List ℕ → Bool) (utf8 : Text → List ℕ) where
  find_key-IsFirst :
      (message signature : List ℕ) (before ks : List SignatureKey)
      → All (λ (k : SignatureKey). length k.bytes ≡ 32) ks
      → any (λ (k : SignatureKey). verify signature message k.bytes) before ≡ false
      → (r : Option ℕ) × (find_key verify utf8 message signature (length before) ks ≡ ok r)
        × IsFirst (λ (k : SignatureKey). verify signature message k.bytes) (before ++ ks) r
  unfolding find_key
  find_key-IsFirst message signature before [] a h = (
    none,
    refl,
    subst (λ l. any (λ (k : SignatureKey). verify signature message k.bytes) l ≡ false)
        (sym (append-nil before)) h,
  )
  find_key-IsFirst message signature before (k ∷ ks) (size, a) h =
      elim (Bool-cases (verify signature message k.bytes)) [
        | inl e ↦ (
          some (length before),
          rw (size, e) (ground arith),
          (
            k,
            get_elem?-append before ks k,
            e,
            ap (any (λ (k : SignatureKey). verify signature message k.bytes))
                  (take-append before (k ∷ ks))
                ∙ h,
          ),
        )
        | inr e ↦
            let (r, f, g) = find_key-IsFirst message signature (before ++ k ∷ []) ks a (
              any-append_false (λ (k : SignatureKey). verify signature message k.bytes) before k h
                e) in
            (
              r,
              rw (size, e)
                  (ap (λ n. find_key verify utf8 message signature n ks)
                      (sym (length-snoc before k))
                    ∙ f),
              subst (λ l. IsFirst (λ (k : SignatureKey). verify signature message k.bytes) l r)
                  (append_assoc before (k ∷ []) ks) g,
            )
      ]

  -- The endorsement of one of the signatures: it names the first key that verifies it.
  pub record Endorses (message : List ℕ) (keys : List SignatureKey) (ss : List Signature)
      (e : Endorsement) : Type 0 where
    pub signature : Signature
    pub place : get_elem? ss e.signature_index ≡ some signature
    pub by_key : e.endorsed ≡ is_some e.key_index
    pub first :
        IsFirst (λ (k : SignatureKey). verify signature.bytes message k.bytes) keys e.key_index

  classify_from-Endorses :
      (message : List ℕ) (keys : List SignatureKey) (before ss : List Signature)
      → All (λ (k : SignatureKey). length k.bytes ≡ 32) keys
      → (es : List Endorsement) × (classify_from verify utf8 message keys (length before) ss
          ≡ ok es)
        × (length es ≡ length ss)
        × All (Endorses message keys (before ++ ss)) es
  unfolding classify_from
  classify_from-Endorses message keys before [] a = ([], refl, refl, tt)
  classify_from-Endorses message keys before (s ∷ ss) a =
      let (r, f, g) = find_key-IsFirst message s.bytes [] keys a refl in
      let (es, e, n, all) = classify_from-Endorses message keys (before ++ s ∷ []) ss a in
      let later =
        ap (λ n. classify_from verify utf8 message keys n ss) (sym (length-snoc before s)) ∙ e in
      (
        record { signature_index = length before; endorsed = is_some r; key_index = r } ∷ es,
        rw (f, later) refl,
        ap suc n,
        (
          record { signature = s; place = get_elem?-append before ss s; by_key = refl; first = g },
          subst (λ l. All (Endorses message keys l) es) (append_assoc before (s ∷ []) ss) all,
        ),
      )

  -- With keys of 32 bytes there are as many endorsements as signatures, and each is of the signature
  -- at its index: it names the first of the keys that verifies that signature over the fingerprint,
  -- and it endorses if there is one.
  pub classify-Endorses :
      (n : NarInfo) (keys : List SignatureKey)
      → All (λ (k : SignatureKey). length k.bytes ≡ 32) keys
      → (es : List Endorsement) × (classify verify utf8 n keys ≡ ok es)
        × (length es ≡ length n.signatures)
        × All (Endorses (utf8 n.fingerprint) keys n.signatures) es
  unfolding classify
  classify-Endorses n keys a = classify_from-Endorses (utf8 n.fingerprint) keys [] n.signatures a
