-- ===== src/StateRepository/Newest.antt =====
-- src/persistence/state_repository.ts: which publication of a cache stays selected.
use nixstr_cache.Prelude.{
  ℕ, ◌<◌, ◌≡◌, ◌⊎◌, ==_iff, text_lt, inl, inr, refl, sym, ap, subst, ◌∙◌, Bool, true, false, not,
  Option, none, some, List, [], ◌∷◌, if◌then◌else◌, arith, Text, text_eq, text_eq_sound, lookup,
  insert, lookup-insert, All, Any, Bool-cases, Option-cases,
}
use nixstr_cache.SourcePlan.{is_empty}
use nixstr_cache.Publication.{RawPublication, Validated, cache_identity}
use nixstr_cache.StateRepository.{
  Row, State, is_signed, needs_consent, newer, rank_of, is_stale, accepted_row, accept,
}
use nixstr_cache.StateRepository.Ranks.{
  beats, best_of, best_all, best_of_beaten, best_all-kept, best_of-cases,
}

-- The tables after a list of publications is offered in its order.
unfoldable pub accept_all :
    (RawPublication → Text) → (Text → Option RawPublication) → List Validated → State → State
accept_all stringify decode [] s = s
accept_all stringify decode (v ∷ vs) s =
    accept_all stringify decode vs ((accept stringify decode true v s).1)

-- What the tables hold of a cache.
unfoldable pub rank_in : Text → State → Option (ℕ × Text)
rank_in identity s = rank_of (lookup identity s.identities)

-- A rank is at least as new as a publication: its time is later, or the same with an id that is not
-- the larger one. No rank at all is not.
abbrev pub IsAsNew : RawPublication → Option (ℕ × Text) → Type 0
IsAsNew e none = ⊥
IsAsNew e (some (t, id)) = (e.created_at < t) ⊎ ((e.created_at ≡ t) × (text_lt e.id id ≡ false))

unbeaten-IsAsNew : (e : RawPublication) (r : Option (ℕ × Text)) → beats e r ≡ false → IsAsNew e r
unfolding beats newer
unbeaten-IsAsNew e none h = ground arith
unbeaten-IsAsNew e (some (t, id)) h = ground (arith, ==_iff e.created_at t)

-- A rank that some publication has and that is at least as new as each of them.
pub record IsNewest (identity : Text) (vs : List Validated) (r : Option (ℕ × Text)) : Type 0 where
  pub newest :
      All (λ (v : Validated). (cache_identity v.identity ≡ identity) → IsAsNew v.event r) vs
  pub offered :
      (r ≡ none)
      ⊎ Any
          (λ (v : Validated).
            (cache_identity v.identity ≡ identity)
            × (r ≡ some ((v.event).created_at, (v.event).id)))
          vs

-- A publication with a key and an id.
abbrev pub IsOffer : Validated → Type 0
IsOffer v = (is_signed v.nix_keys ≡ true) × (is_empty (v.event).id ≡ false)

needs_consent_signed : (c : Option Row) → needs_consent true c ≡ false
unfolding needs_consent
needs_consent_signed none = refl
needs_consent_signed (some r) = ground arith

is_stale-beats : (e : RawPublication) (c : Option Row) → is_stale e c ≡ not (beats e (rank_of c))
unfolding is_stale beats
is_stale-beats e c = elim (Option-cases (rank_of c)) [
  | inl n ↦ rw (n, is_stale, beats) refl
  | inr (r, h) ↦ rw (h, is_stale, beats) refl
]

module _ (stringify : RawPublication → Text) (decode : Text → Option RawPublication) where
  rank_of-accepted_row :
      (v : Validated) (c : Option Row)
      → is_empty (v.event).id ≡ false
      → rank_of (some (accepted_row stringify decode v c))
        ≡ some ((v.event).created_at, (v.event).id)
  unfolding rank_of accepted_row
  rank_of-accepted_row v c k = rw k refl

  accept-signed :
      (v : Validated) (s : State) (stale : Bool)
      → is_signed v.nix_keys ≡ true
      → is_stale v.event (lookup (cache_identity v.identity) s.identities) ≡ stale
      → (accept stringify decode true v s).1 ≡ (
          if stale then s else record s {
            identities =
                insert
                  (cache_identity v.identity)
                  (accepted_row stringify decode v
                    (lookup (cache_identity v.identity) s.identities))
                  s.identities;
          })
  unfolding accept
  accept-signed v s stale h e =
      rw (h, needs_consent_signed (lookup (cache_identity v.identity) s.identities), e)
        (ground arith)

  moved :
      (own identity : Text) (s : State) (v : Validated) (b : Bool)
      → text_eq own identity ≡ true
      → beats v.event (rank_of (lookup own s.identities)) ≡ b
      → beats v.event (rank_of (lookup identity s.identities)) ≡ b
  moved own identity s v b e h =
      subst (λ i. beats v.event (rank_of (lookup i s.identities)) ≡ b)
        (text_eq_sound own identity e) h

  rank_in-accept :
      (identity : Text) (v : Validated) (s : State)
      → IsOffer v
      → rank_in identity ((accept stringify decode true v s).1)
        ≡ best_of identity v (rank_in identity s)
  unfolding rank_in best_of
  rank_in-accept identity v s (h, k) =
      let own = cache_identity v.identity in
      let current = lookup own s.identities in
      elim (Bool-cases (beats v.event (rank_of current))) [
        | inl b ↦
            let e = accept-signed v s false h (is_stale-beats v.event current ∙ ap not b) in
            rw
              (e, lookup-insert own identity (accepted_row stringify decode v current) s.identities)
              (elim (Bool-cases (text_eq own identity)) [
                | inl same ↦
                    rw (same, moved own identity s v true same b) (rank_of-accepted_row v current k)
                | inr other ↦ rw other refl
              ])
        | inr b ↦
            let e = accept-signed v s true h (is_stale-beats v.event current ∙ ap not b) in
            rw e (elim (Bool-cases (text_eq own identity)) [
              | inl same ↦ rw (same, moved own identity s v false same b) refl
              | inr other ↦ rw other refl
            ])
      ]

best_all-newest :
    (identity : Text) (vs : List Validated) (r : Option (ℕ × Text))
    → All
        (λ (v : Validated).
          (cache_identity v.identity ≡ identity) → IsAsNew v.event (best_all identity vs r))
        vs
unfolding best_all
best_all-newest identity [] r = tt
best_all-newest identity (v ∷ vs) r = (
  λ e.
      unbeaten-IsAsNew v.event (best_all identity vs (best_of identity v r))
        (best_all-kept identity v.event vs (best_of identity v r) (best_of_beaten identity v r e)),
  best_all-newest identity vs (best_of identity v r),
)

-- Where the result is found.
abbrev FoundIn : Text → List Validated → Option (ℕ × Text) → Type 0
FoundIn identity vs r =
    Any
      (λ (v : Validated).
        (cache_identity v.identity ≡ identity) × (r ≡ some ((v.event).created_at, (v.event).id)))
      vs

best_all-offered :
    (identity : Text) (vs : List Validated) (r : Option (ℕ × Text))
    → (best_all identity vs r ≡ r) ⊎ FoundIn identity vs (best_all identity vs r)
unfolding best_all
best_all-offered identity [] r = inl refl
best_all-offered identity (v ∷ vs) r = elim (best_all-offered identity vs (best_of identity v r)) [
  | inl e ↦ elim (best_of-cases identity v r) [
    | inl f ↦ inl (e ∙ f)
    | inr (f, g) ↦ inr (inl (f, e ∙ g))
  ]
  | inr m ↦ inr (inr m)
]

module _ (stringify : RawPublication → Text) (decode : Text → Option RawPublication) where
  rank_in-accept_all :
      (identity : Text) (vs : List Validated) (s : State)
      → All IsOffer vs
      → rank_in identity (accept_all stringify decode vs s)
        ≡ best_all identity vs (rank_in identity s)
  unfolding accept_all best_all
  rank_in-accept_all identity [] s h = refl
  rank_in-accept_all identity (v ∷ vs) s (p, h) =
      rank_in-accept_all identity vs ((accept stringify decode true v s).1) h
      ∙ ap (best_all identity vs) (rank_in-accept stringify decode identity v s p)

  -- After publications that have a key and an id are offered in any order, the rank that a cache
  -- without a selection has is the time and the id of one of its publications offered, and each of
  -- those is earlier, or as late with an id that is not smaller. If none is of that cache, it has no
  -- selection.
  pub accept_all-IsNewest :
      (identity : Text) (vs : List Validated) (s : State)
      → All IsOffer vs
      → rank_in identity s ≡ none
      → IsNewest identity vs (rank_in identity (accept_all stringify decode vs s))
  accept_all-IsNewest identity vs s h e =
      let f = rank_in-accept_all identity vs s h ∙ ap (best_all identity vs) e in
      subst (IsNewest identity vs) (sym f) (record {
        newest = best_all-newest identity vs none;
        offered = best_all-offered identity vs none;
      })
