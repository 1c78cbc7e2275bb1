-- ===== src/Registry/Winner/Held.antt =====
-- src/nix/merged_cache.ts, `WinnerRouteRegistry`: an entry of the table and how many are behind it.
use nixstr_cache.Prelude.{
  ℕ, ◌+◌, ◌≤◌, ◌<◌, ◌≡◌, ◌⊎◌, refl, ap, true, false, not, none, some, List, [], ◌∷◌, arith, leb,
  length, length-keep-le, Text, text_eq, text_eq_iff, text_eq_refl, lookup, remove, insert,
  length-remove-le, inl, inr,
}
use nixstr_cache.Registry.{Entry}
use nixstr_cache.Registry.Winner.{purge, evict, length-insert-le}

module _ {P : Type 0} where
  -- The table has the entry for the key, and at most `n` entries behind it.
  unfoldable pub Held : Text → Entry P → ℕ → List (Text × Entry P) → Type 0
  Held key e n [] = ⊥
  Held key e n ((k, w) ∷ m) =
      ((text_eq k key ≡ true) × (w ≡ e) × (length m ≤ n))
      ⊎ ((text_eq k key ≡ false) × Held key e n m)

  pub Held-lookup :
      (key : Text) (e : Entry P) (n : ℕ) (m : List (Text × Entry P))
      → Held key e n m
      → lookup key m ≡ some e
  unfolding lookup Held
  Held-lookup key e n [] h = absurd h
  Held-lookup key e n ((k, w) ∷ m) (inl (a, b, c)) = rw a (ap some b)
  Held-lookup key e n ((k, w) ∷ m) (inr (a, h)) = rw a (Held-lookup key e n m h)

  pub Held-purge :
      (now : ℕ) (key : Text) (e : Entry P) (n : ℕ) (m : List (Text × Entry P))
      → now < e.expires_at
      → Held key e n m
      → Held key e n (purge now m)
  unfolding purge Held
  Held-purge now key e n [] late h = absurd h
  Held-purge now key e n ((k, w) ∷ m) late (inl (a, b, c)) =
      ground (arith, length-keep-le (λ (x : Text × Entry P). not (leb ((x.1).expires_at) now)) m)
  Held-purge now key e n ((k, w) ∷ m) late (inr (a, h)) =
      ground (arith, Held-purge now key e n m late h)

  pub Held-remove :
      (j key : Text) (e : Entry P) (n : ℕ) (m : List (Text × Entry P))
      → text_eq j key ≡ false
      → Held key e n m
      → Held key e n (remove j m)
  unfolding remove Held
  Held-remove j key e n [] other h = absurd h
  Held-remove j key e n ((k, w) ∷ m) other (inl (a, b, c)) =
      ground (arith, text_eq_iff k j, text_eq_iff k key, text_eq_iff j key, length-remove-le j m)
  Held-remove j key e n ((k, w) ∷ m) other (inr (a, h)) =
      ground (arith, Held-remove j key e n m other h)

  pub Held-evict :
      (max : ℕ) (key : Text) (e : Entry P) (n : ℕ) (m : List (Text × Entry P))
      → n + 1 < max
      → Held key e n m
      → Held key e n (evict max m)
  unfolding evict Held
  Held-evict max key e n [] room h = absurd h
  Held-evict max key e n ((k, w) ∷ m) room (inl (a, b, c)) = ground arith
  Held-evict max key e n ((k, w) ∷ m) room (inr (a, h)) =
      ground (arith, Held-evict max key e n m room h)

  pub Held-suc :
      (key : Text) (e : Entry P) (n : ℕ) (m : List (Text × Entry P))
      → Held key e n m
      → Held key e (n + 1) m
  unfolding Held
  Held-suc key e n [] h = absurd h
  Held-suc key e n ((k, w) ∷ m) (inl (a, b, c)) = inl (a, b, omega arith)
  Held-suc key e n ((k, w) ∷ m) (inr (a, h)) = inr (a, Held-suc key e n m h)

  pub Held-insert :
      (j key : Text) (v e : Entry P) (n : ℕ) (m : List (Text × Entry P))
      → text_eq j key ≡ false
      → Held key e n m
      → Held key e (n + 1) (insert j v m)
  unfolding insert Held
  Held-insert j key v e n [] other h = absurd h
  Held-insert j key v e n ((k, w) ∷ m) other (inl (a, b, c)) =
      ground (arith, text_eq_iff k j, text_eq_iff k key, text_eq_iff j key, length-insert-le j v m)
  Held-insert j key v e n ((k, w) ∷ m) other (inr (a, h)) =
      ground (arith, Held-insert j key v e n m other h, Held-suc key e n m h)

  pub insert-Held :
      (key : Text) (e : Entry P) (m : List (Text × Entry P))
      → lookup key m ≡ none
      → Held key e 0 (insert key e m)
  unfolding insert lookup Held
  insert-Held key e [] h = inl (text_eq_refl key, refl, omega arith)
  insert-Held key e ((k, w) ∷ m) h = ground (arith, insert-Held key e m)

  pub lookup-evict :
      (max : ℕ) (key : Text) (m : List (Text × Entry P))
      → lookup key m ≡ none
      → lookup key (evict max m) ≡ none
  unfolding evict lookup
  lookup-evict max key [] h = refl
  lookup-evict max key ((k, w) ∷ m) h = ground (arith, lookup-evict max key m)
