-- ===== src/Publication/CacheName.antt =====
-- src/protocol/publication.ts: the text that names a cache, `cacheIdentity`.
use nixstr_cache.Prelude.{
  ℕ, ◌≡◌, inl, inr, refl, sym, ap, ◌∙◌, false, Option, none, some, [], ◌∷◌, ◌++◌, arith, Text, txt,
  decimal, has_char,
}
use nixstr_cache.Prelude.Result.{ok}
use nixstr_cache.Publication.{
  RawPublication, Identity, Validated, Platform, validate, cache_identity, name_text,
}
use nixstr_cache.Publication.Accepted.{IsAccepted, validate-IsAccepted}

cons_injective : {x y : ℕ} {s t : Text} → x ∷ s ≡ y ∷ t → (x ≡ y) × (s ≡ t)
cons_injective h = (cc, cc)

-- A separator that neither text has splits in one way only.
split_once :
    (c : ℕ) (a b s t : Text)
    → has_char c a ≡ false
    → has_char c b ≡ false
    → a ++ (c ∷ s) ≡ b ++ (c ∷ t)
    → (a ≡ b) × (s ≡ t)
unfolding has_char
split_once c [] [] s t h k e = (refl, (cons_injective e).1)
split_once c [] (y ∷ b) s t h k e = ground (arith, cons_injective e)
split_once c (x ∷ a) [] s t h k e = ground (arith, cons_injective e)
split_once c (x ∷ a) (y ∷ b) s t h k e = ground (arith, cons_injective e, split_once c a b s t)

-- The two ways in which an identity is made.
data Form (i : Identity) : Type 0 where
  default : i.kind ≡ 17091 → i.name ≡ none → Form i
  named : i.kind ≡ 37091 → (n : Text) → i.name ≡ some n → Form i

accepted-Form :
    (p : Platform) (raw : RawPublication) (now : ℕ) (v : Validated)
    → IsAccepted p raw now v
    → Form v.identity
accepted-Form p raw now v h = elim (h.name) [
  | inl d ↦ default ((h.identity).0 ∙ d.kind) d.nameless
  | inr n ↦ named ((h.identity).0 ∙ n.kind) n.label n.named
]

Identity-eq : (i j : Identity) → i.kind ≡ j.kind → i.pubkey ≡ j.pubkey → i.name ≡ j.name → i ≡ j
Identity-eq i j e f g = λ t. record { kind = e t; pubkey = f t; name = g t }

lacks_colon_default : has_char b':' (txt "17091") ≡ false
unfolding has_char
lacks_colon_default = refl

lacks_colon_named : has_char b':' (txt "37091") ≡ false
unfolding has_char
lacks_colon_named = refl

decimal_default : decimal 17091 ≡ txt "17091"
unfolding decimal
decimal_default = refl

decimal_named : decimal 37091 ≡ txt "37091"
unfolding decimal
decimal_named = refl

abbrev text_of : Text → Text → Option Text → Text
text_of kind pubkey name = kind ++ (b':' ∷ (pubkey ++ (b':' ∷ name_text name)))

abbrev tail_of : Text → Text → Text
tail_of pubkey name = pubkey ++ (b':' ∷ name)

cache_identity-text_of :
    (i : Identity) (kind : Text)
    → decimal i.kind ≡ kind
    → cache_identity i ≡ text_of kind i.pubkey i.name
unfolding cache_identity
cache_identity-text_of i kind e = ap (λ t. text_of t i.pubkey i.name) e

-- Equal texts behind the same digits.
strip_kind :
    (k : Text) (a b : Text) (m n : Option Text)
    → has_char b':' k ≡ false
    → has_char b':' a ≡ false
    → has_char b':' b ≡ false
    → text_of k a m ≡ text_of k b n
    → (a ≡ b) × (name_text m ≡ name_text n)
strip_kind k a b m n q h g e =
    split_once b':' a b (name_text m) (name_text n) h g
      ((split_once b':' k k (tail_of a (name_text m)) (tail_of b (name_text n)) q q e).1)

same_text :
    (i j : Identity) (k l : Text)
    → decimal i.kind ≡ k
    → decimal j.kind ≡ l
    → cache_identity i ≡ cache_identity j
    → text_of k i.pubkey i.name ≡ text_of l j.pubkey j.name
same_text i j k l e f h = sym (cache_identity-text_of i k e) ∙ h ∙ cache_identity-text_of j l f

apart : {a b : Text} → b'1' ∷ a ≡ b'3' ∷ b → ⊥
apart h = ground (arith, cons_injective h)

identity_of_text :
    (i j : Identity)
    → Form i
    → Form j
    → has_char b':' i.pubkey ≡ false
    → has_char b':' j.pubkey ≡ false
    → cache_identity i ≡ cache_identity j
    → i ≡ j
identity_of_text i j (default e f) (default g k) a b h =
    let t = same_text i j _ _ (ap decimal e ∙ decimal_default) (ap decimal g ∙ decimal_default) h in
    let (p, _) = strip_kind (txt "17091") _ _ i.name j.name lacks_colon_default a b t in
    Identity-eq i j (e ∙ sym g) p (f ∙ sym k)
identity_of_text i j (default e f) (named g n k) a b h =
    absurd
      (apart (same_text i j _ _ (ap decimal e ∙ decimal_default) (ap decimal g ∙ decimal_named) h))
identity_of_text i j (named e m f) (default g k) a b h = absurd (
    apart
      (sym (same_text i j _ _ (ap decimal e ∙ decimal_named) (ap decimal g ∙ decimal_default) h)))
identity_of_text i j (named e m f) (named g n k) a b h =
    let t = same_text i j _ _ (ap decimal e ∙ decimal_named) (ap decimal g ∙ decimal_named) h in
    let (p, q) = strip_kind (txt "37091") _ _ i.name j.name lacks_colon_named a b t in
    Identity-eq i j (e ∙ sym g) p (f ∙ ap some (sym (ap name_text f) ∙ q ∙ ap name_text k) ∙ sym k)

-- Two publications that are accepted and whose public keys hold no colon have the same text only if
-- they are of one cache: the text that the state is kept under never joins two caches.
pub cache_identity_faithful :
    (p : Platform) (raw raw' : RawPublication) (now now' : ℕ) (v v' : Validated)
    → validate p raw now ≡ ok v
    → validate p raw' now' ≡ ok v'
    → has_char b':' raw.pubkey ≡ false
    → has_char b':' raw'.pubkey ≡ false
    → cache_identity v.identity ≡ cache_identity v'.identity
    → v.identity ≡ v'.identity
cache_identity_faithful p raw raw' now now' v v' h h' c c' e =
    let a = validate-IsAccepted p raw now h in
    let a' = validate-IsAccepted p raw' now' h' in
    identity_of_text v.identity v'.identity (accepted-Form p raw now v a)
      (accepted-Form p raw' now' v' a') (ap (has_char b':') ((a.identity).1) ∙ c)
      (ap (has_char b':') ((a'.identity).1) ∙ c') e
