-- ===== src/StateRepository/Downgrade.antt =====
-- src/persistence/state_repository.ts: the signed history of a cache under sequences of calls.
use nixstr_cache.Prelude.{
  ℕ, Any, ◌≡◌, ◌≢◌, ◌⊎◌, inl, inr, refl, sym, ap, subst, ◌∙◌, Bool, true, false, not, ◌&&◌, Option,
  none, some, List, [], ◌∷◌, arith, Text, text_eq, text_eq_sound, lookup, insert, lookup-insert,
  All, Bool-cases, Option-cases,
}
use nixstr_cache.Publication.{RawPublication, Validated, cache_identity}
use nixstr_cache.StateRepository.{
  Row, State, is_signed, needs_consent, is_stale, accepted_row, accept, set_unsigned_consent,
  clear_corrupt_selection, quarantine, release_quarantine, load_selections, load_rows,
  load_selection, Selection, Loaded, nothing, bad_shape, loaded,
}

-- The calls that write.
pub data Op : Type 0 where
  accepts : Bool → Validated → Op
  consents : Text → Bool → Op
  clears : Text → Op
  loads : Op
  quarantines : Text → Text → ℕ → Op
  releases : Text → Op

unfoldable pub run_op :
    (RawPublication → Text) → (Text → Option RawPublication) → Op → State → State
run_op stringify decode (accepts commits v) s = (accept stringify decode commits v s).1
run_op stringify decode (consents identity allowed) s = set_unsigned_consent identity allowed s
run_op stringify decode (clears identity) s = clear_corrupt_selection identity s
run_op stringify decode loads s = (load_selections stringify decode s).1
run_op stringify decode (quarantines origin reason at) s = quarantine origin reason at s
run_op stringify decode (releases origin) s = release_quarantine origin s

unfoldable pub run_ops :
    (RawPublication → Text) → (Text → Option RawPublication) → List Op → State → State
run_ops stringify decode [] s = s
run_ops stringify decode (o ∷ os) s = run_ops stringify decode os (run_op stringify decode o s)

-- The call does not consent to an unsigned publication of the cache.
abbrev pub Withholds : Text → Op → Type 0
Withholds identity (consents i true) = i ≢ identity
Withholds identity (consents i false) = Unit {0}
Withholds identity (accepts _ _) = Unit {0}
Withholds identity (clears _) = Unit {0}
Withholds identity loads = Unit {0}
Withholds identity (quarantines _ _ _) = Unit {0}
Withholds identity (releases _) = Unit {0}

-- The call offers the publication.
abbrev pub Offers : Validated → Op → Type 0
Offers v (accepts _ w) = w ≡ v
Offers v (consents _ _) = ⊥
Offers v (clears _) = ⊥
Offers v loads = ⊥
Offers v (quarantines _ _ _) = ⊥
Offers v (releases _) = ⊥

-- The row has a signed history and no consent, and what it selects is nothing, what it selected at
-- first, or the text of an offered publication that has a key.
pub record IsGuarded (stringify : RawPublication → Text) (offered : Validated → Type 0)
    (first : Option Text) (r : Row) : Type 0 where
  pub history : r.signed_history ≡ true
  pub consent : r.unsigned_consent ≡ false
  pub signed :
      (r.event_json ≡ none)
      ⊎ (r.event_json ≡ first)
      ⊎ ((v : Validated) × offered v
          × (is_signed v.nix_keys ≡ true)
          × (r.event_json ≡ some (stringify v.event)))

-- A state whose row for the cache is guarded.
abbrev pub Guards :
    (RawPublication → Text) → (Validated → Type 0) → Option Text → Text → State → Type 0
Guards stringify offered first identity s =
    (r : Row) × (lookup identity s.identities ≡ some r) × IsGuarded stringify offered first r

-- What a call offers is among what is offered.
abbrev Covers : (Validated → Type 0) → Op → Type 0
Covers offered o = (v : Validated) → Offers v o → offered v

Covers-each :
    (os all_os : List Op)
    → ((v : Validated) → Any (Offers v) os → Any (Offers v) all_os)
    → All (Covers (λ v. Any (Offers v) all_os)) os
Covers-each [] all_os h = tt
Covers-each (o ∷ os) all_os h = (λ v e. h v (inl e), Covers-each os all_os (λ v e. h v (inr e)))

Loaded-cases : (l : Loaded) → (l ≡ nothing) ⊎ ((l ≡ bad_shape) ⊎ ((x : Selection) × (l ≡ loaded x)))
Loaded-cases nothing = inl refl
Loaded-cases bad_shape = inr (inl refl)
Loaded-cases (loaded x) = inr (inr (x, refl))

some_injective : {x y : Row} → Path (Option Row) (some x) (some y) → x ≡ y
some_injective h = cc

module _ (stringify : RawPublication → Text) (decode : Text → Option RawPublication)
    (offered : Validated → Type 0) (first : Option Text) (identity : Text) where
  Guards-insert :
      (own : Text) (n : Row) (s : State) (q : List (Text × (Text × ℕ)))
      → (own ≡ identity → IsGuarded stringify offered first n)
      → Guards stringify offered first identity s
      → Guards stringify offered first identity
          (record { identities = insert own n s.identities; quarantined = q })
  Guards-insert own n s q h (r, e, g) = elim (Bool-cases (text_eq own identity)) [
    | inl same ↦ (
      n,
      lookup-insert own identity n s.identities ∙ rw same refl,
      h (text_eq_sound own identity same),
    )
    | inr other ↦ (r, lookup-insert own identity n s.identities ∙ rw other e, g)
  ]

  accept-cases :
      (commits : Bool) (v : Validated) (s : State)
      → ((accept stringify decode commits v s).1 ≡ s)
        ⊎ ((needs_consent (is_signed v.nix_keys) (lookup (cache_identity v.identity) s.identities)
              ≡ false)
            × ((accept stringify decode commits v s).1 ≡ record s {
              identities =
                  insert
                    (cache_identity v.identity)
                    (accepted_row stringify decode v
                      (lookup (cache_identity v.identity) s.identities))
                    s.identities;
            }))
  unfolding accept
  accept-cases commits v s =
      elim (Bool-cases
        (needs_consent (is_signed v.nix_keys) (lookup (cache_identity v.identity) s.identities))) [
          | inl e ↦ inl (rw e refl)
          | inr e ↦
              elim (Bool-cases
                (is_stale v.event (lookup (cache_identity v.identity) s.identities))) [
                  | inl f ↦ inl (rw (e, f) refl)
                  | inr f ↦ elim (Bool-cases commits) [
                    | inl c ↦ inr (e, rw (e, f, c) refl)
                    | inr c ↦ inl (rw (e, f, c) refl)
                  ]
                ]
        ]

  accepted_row-IsGuarded :
      (v : Validated) (r : Row)
      → offered v
      → needs_consent (is_signed v.nix_keys) (some r) ≡ false
      → IsGuarded stringify offered first r
      → IsGuarded stringify offered first (accepted_row stringify decode v (some r))
  unfolding needs_consent accepted_row
  accepted_row-IsGuarded v r o h g = record {
    history = rw (g.history) refl;
    consent = g.consent;
    signed = inr (
        inr (
          v,
          o,
          has_key (is_signed v.nix_keys) r.signed_history r.unsigned_consent h g.history g.consent,
          refl,
        ));
  }
    where
      has_key :
          (b history consent : Bool)
          → (history && not b && not consent) ≡ false
          → history ≡ true
          → consent ≡ false
          → b ≡ true
      has_key b history consent h e f = ground arith

  accept-Guards :
      (commits : Bool) (v : Validated) (s : State)
      → offered v
      → Guards stringify offered first identity s
      → Guards stringify offered first identity ((accept stringify decode commits v s).1)
  accept-Guards commits v s o (r, e, g) = elim (accept-cases commits v s) [
    | inl same ↦ subst (Guards stringify offered first identity) (sym same) (r, e, g)
    | inr (h, next) ↦ subst (Guards stringify offered first identity) (sym next) (
        Guards-insert (cache_identity v.identity) _ s s.quarantined
          (λ own.
            let f = ap (λ i. lookup i s.identities) own ∙ e in
            subst (λ c. IsGuarded stringify offered first (accepted_row stringify decode v c))
              (sym f)
              (accepted_row-IsGuarded v r o
                (subst (λ c. needs_consent (is_signed v.nix_keys) c ≡ false) f h) g))
          (r, e, g))
  ]

  clear-Guards :
      (own : Text) (s : State)
      → Guards stringify offered first identity s
      → Guards stringify offered first identity (clear_corrupt_selection own s)
  unfolding clear_corrupt_selection
  clear-Guards own s (r, e, g) = elim (Option-cases (lookup own s.identities)) [
    | inl missing ↦ rw (missing, clear_corrupt_selection) (r, e, g)
    | inr (q, found) ↦
        rw (found, clear_corrupt_selection)
          (Guards-insert own _ s s.quarantined
            (λ same.
              let f = some_injective (sym e ∙ ap (λ i. lookup i s.identities) (sym same) ∙ found) in
              record {
                history = ap (λ (x : Row). x.signed_history) (sym f) ∙ g.history;
                consent = ap (λ (x : Row). x.unsigned_consent) (sym f) ∙ g.consent;
                signed = inl refl;
              })
            (r, e, g))
  ]

  load_rows-Guards :
      (rs : List (Text × Row)) (s : State)
      → Guards stringify offered first identity s
      → Guards stringify offered first identity ((load_rows stringify decode rs s).1)
  unfolding load_rows
  load_rows-Guards [] s g = g
  load_rows-Guards ((own, r) ∷ rs) s g =
      elim (Loaded-cases (load_selection stringify decode own s)) [
        | inl e ↦ rw (e, load_rows) (load_rows-Guards rs s g)
        | inr (inl e) ↦
            rw (e, load_rows)
              (load_rows-Guards rs (clear_corrupt_selection own s) (clear-Guards own s g))
        | inr (inr (x, e)) ↦ rw (e, load_rows) (load_rows-Guards rs s g)
      ]

  consent-Guards :
      (own : Text) (allowed : Bool) (s : State)
      → Withholds identity (consents own allowed)
      → Guards stringify offered first identity s
      → Guards stringify offered first identity (set_unsigned_consent own allowed s)
  unfolding set_unsigned_consent
  consent-Guards own allowed s w (r, e, g) =
      Guards-insert own _ s s.quarantined
        (λ same.
          let f = ap (λ i. lookup i s.identities) same ∙ e in
          rw f
            (record { history = g.history; consent = withheld allowed w same; signed = g.signed }))
        (r, e, g)
    where
      withheld :
          (allowed : Bool)
          → Withholds identity (consents own allowed)
          → own ≡ identity
          → allowed ≡ false
      withheld true w same = absurd (w same)
      withheld false w same = refl

  run_op-Guards :
      (o : Op) (s : State)
      → Withholds identity o
      → Covers offered o
      → Guards stringify offered first identity s
      → Guards stringify offered first identity (run_op stringify decode o s)
  unfolding run_op quarantine release_quarantine load_selections
  run_op-Guards (accepts commits v) s w c g = accept-Guards commits v s (c v refl) g
  run_op-Guards (consents own allowed) s w c g = consent-Guards own allowed s w g
  run_op-Guards (clears own) s w c g = clear-Guards own s g
  run_op-Guards loads s w c g = load_rows-Guards s.identities s g
  run_op-Guards (quarantines origin reason at) s w c g = g
  run_op-Guards (releases origin) s w c g = g

  run_ops-Guards :
      (os : List Op) (s : State)
      → All (Withholds identity) os
      → All (Covers offered) os
      → Guards stringify offered first identity s
      → Guards stringify offered first identity (run_ops stringify decode os s)
  unfolding run_ops
  run_ops-Guards [] s w c g = g
  run_ops-Guards (o ∷ os) s (w, ws) (c, cs) g =
      run_ops-Guards os (run_op stringify decode o s) ws cs (run_op-Guards o s w c g)

-- Once a cache has had a signed publication and has no consent to unsigned ones, no sequence of
-- calls that leaves out that consent, rejected and failed acceptances included, makes an unsigned
-- publication its selection or ends the guard: what it selects is nothing, what it selected at the
-- start, or a publication with a key that one of the calls offered.
pub run_ops_guarded :
    (stringify : RawPublication → Text) (decode : Text → Option RawPublication) (identity : Text)
    (os : List Op) (s : State) (r : Row)
    → All (Withholds identity) os
    → lookup identity s.identities ≡ some r
    → r.signed_history ≡ true
    → r.unsigned_consent ≡ false
    → Guards stringify
        (λ v. Any (Offers v) os)
        r.event_json
        identity
        (run_ops stringify decode os s)
run_ops_guarded stringify decode identity os s r w e h c =
    run_ops-Guards stringify decode (λ v. Any (Offers v) os) r.event_json identity os s w
      (Covers-each os os (λ v m. m))
      (r, e, record { history = h; consent = c; signed = inr (inl refl) })
