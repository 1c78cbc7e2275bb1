-- ===== src/Resolver/Listings.antt =====
-- src/hashtree/reader.ts, the choice of a link in `resolve`, in a directory that was validated.
use nixstr_cache.Prelude.{
  ◌≡◌, ◌≢◌, ◌↔◌, inl, inr, refl, sym, ap, subst, ◌∙◌, true, false, Option, none, some, List, [],
  ◌∷◌, find, All, Any, All-any, Text, text_eq_iff, text_lt_irrefl, Bool-cases, arith,
}
use nixstr_cache.Manifest.Value.{Codec}
use nixstr_cache.Manifest.{Manifest, directory, Link}
use nixstr_cache.Manifest.Rules.{name_or_empty, byte_lt}
use nixstr_cache.Manifest.Shape.{IsListing}
use nixstr_cache.Resolver.Walk.{choose, is_named}

is_named_iff : (s : Text) (o : Option Text) → (is_named s o ≡ true) ↔ (o ≡ some s)
is_named_iff s none = (λ h. cc, λ h. cc)
is_named_iff s (some n) = (λ h. ap some ((text_eq_iff n s).0 h), λ h. (text_eq_iff n s).1 cc)

module _ (c : Codec) where
  -- No name is below itself.
  byte_lt_irrefl : (n : Text) → byte_lt c n n ≡ false
  unfolding byte_lt
  byte_lt_irrefl n = text_lt_irrefl (c.utf8 n)

  find-named :
      (s : Text) (ls : List Link) (l : Link)
      → find (λ x. is_named s x.name) ls ≡ some l
      → Any (λ x. x ≡ l) ls × (l.name ≡ some s)
  find-named s [] l h = cc
  find-named s (x ∷ xs) l h = elim (Bool-cases (is_named s x.name)) [
    | inl e ↦
        let q : x ≡ l = ground (arith, h, e) in
        (inl q, sym (ap (λ (y : Link). y.name) q) ∙ (is_named_iff s x.name).0 e)
    | inr e ↦ let (m, n) = find-named s xs l (ground (arith, h, e)) in (inr m, n)
  ]

  named-find :
      (s : Text) (ls : List Link) (l : Link)
      → IsListing c ls
      → Any (λ x. x ≡ l) ls
      → l.name ≡ some s
      → find (λ x. is_named s x.name) ls ≡ some l
  named-find s [] l v m e = absurd m
  named-find s (x ∷ xs) l v (inl q) e =
      let t : is_named s x.name ≡ true =
        (is_named_iff s x.name).1 (ap (λ (y : Link). y.name) q ∙ e) in
      rw t (ap some q)
  named-find s (x ∷ xs) l (n, named, _, later, v) (inr m) e =
      elim (Bool-cases (is_named s x.name)) [
        | inr f ↦ rw f (named-find s xs l v m e)
        | inl f ↦
            let q : n ≡ s = some_injective (sym named ∙ (is_named_iff s x.name).0 f) in
            let lt = All-any (λ y. byte_lt c n (name_or_empty y.name) ≡ true) xs l later m in
            absurd
              (clash n s q (subst (λ (o : Option Text). byte_lt c n (name_or_empty o) ≡ true) e lt))
      ]
    where
      some_injective : {a b : Text} → Path (Option Text) (some a) (some b) → a ≡ b
      some_injective h = cc

      clash : (n s : Text) → n ≡ s → byte_lt c n s ≡ true → ⊥
      clash n s q lt =
          let f = byte_lt_irrefl n in
          let g : byte_lt c n s ≡ byte_lt c n n = ap (byte_lt c n) (sym q) in cc

  -- In a directory that was validated, a segment chooses exactly the link of that name, wherever it
  -- stands, and none exactly when no link has that name.
  pub choose-listing :
      (m : Manifest) (segment : Text) (l : Link)
      → m.kind ≡ directory
      → IsListing c m.links
      → ((choose segment m ≡ some l) ↔ (Any (λ x. x ≡ l) m.links × (l.name ≡ some segment)))
        × ((choose segment m ≡ none) ↔ All (λ x. x.name ≢ some segment) m.links)
  unfolding choose
  choose-listing m segment l k v = rw k (
    (find-named segment m.links l, λ (a, e). named-find segment m.links l v a e),
    (unnamed m.links, found_none m.links),
  )
    where
      unnamed :
          (ls : List Link)
          → find (λ x. is_named segment x.name) ls ≡ none
          → All (λ x. x.name ≢ some segment) ls
      unnamed [] h = tt
      unnamed (x ∷ xs) h = elim (Bool-cases (is_named segment x.name)) [
        | inl e ↦ let q = h in absurd (ground (arith, h, e))
        | inr e ↦ (
          λ n. let f = (is_named_iff segment x.name).1 n in cc,
          unnamed xs (ground (arith, h, e)),
        )
      ]

      found_none :
          (ls : List Link)
          → All (λ x. x.name ≢ some segment) ls
          → find (λ x. is_named segment x.name) ls ≡ none
      found_none [] h = refl
      found_none (x ∷ xs) (n, h) = elim (Bool-cases (is_named segment x.name)) [
        | inl e ↦ absurd (n ((is_named_iff segment x.name).0 e))
        | inr e ↦ rw e (found_none xs h)
      ]
