-- ===== src/SourcePlan/Laws.antt =====
-- src/blossom/source_plan.ts: the entries of the plan by their base URLs.
use nixstr_cache.Prelude.{
  ◌≡◌, refl, sym, ap, subst, ◌∙◌, Bool, true, false, not, find, keep, map, Option-cases, Option,
  none, some, List, [], ◌∷◌, arith, if◌then◌else◌, Bool-cases, Text, text_eq, text_eq_iff,
  text_eq_sound, inl, inr,
}
use nixstr_cache.SourcePlan.{
  Url, Trust, publisher, configured, candidate, Candidate, Input, upgrade, place, place_all, kept,
  sources, build,
}

-- The entry of a base URL.
unfoldable pub entry_of : Text → List Candidate → Option Candidate
entry_of u [] = none
entry_of u (c ∷ cs) = if text_eq c.base_url u then some c else entry_of u cs

-- What a base URL has after one more candidate, and after all of them.
unfoldable pub offer : Text → Candidate → Option Candidate → Option Candidate
offer u c none = if text_eq c.base_url u then some c else none
offer u c (some old) = if text_eq c.base_url u then some (upgrade c old) else some old

unfoldable pub offer_all : Text → List Candidate → Option Candidate → Option Candidate
offer_all u [] found = found
offer_all u (c ∷ cs) found = offer_all u cs (offer u c found)

-- The first candidate of a base URL, and the first one whose trust is `configured`.
unfoldable pub first_of : Text → List Candidate → Option Candidate
first_of u cs = find (λ (c : Candidate). text_eq c.base_url u) cs

abbrev pub has_trust : Text → Candidate → Bool
has_trust u c = elim c.trust [ publisher ↦ false | configured ↦ text_eq c.base_url u ]

unfoldable pub first_configured : Text → List Candidate → Option Candidate
first_configured u cs = find (has_trust u) cs

abbrev pub or_else : Option Candidate → Option Candidate → Option Candidate
or_else none d = d
or_else (some c) d = some c

-- What a base URL should have.
unfoldable pub best : Text → List Candidate → Option Candidate
best u cs = or_else (first_configured u cs) (first_of u cs)

entry_of-place :
    (u : Text) (c : Candidate) (cs : List Candidate)
    → entry_of u (place c cs) ≡ offer u c (entry_of u cs)
unfolding entry_of place offer
entry_of-place u c [] = ground arith
entry_of-place u c (d ∷ ds) = ground (
  arith,
  text_eq_iff c.base_url u,
  text_eq_iff d.base_url u,
  text_eq_iff d.base_url c.base_url,
  entry_of-place u c ds,
)

entry_of-place_all :
    (u : Text) (cs result : List Candidate)
    → entry_of u (place_all cs result) ≡ offer_all u cs (entry_of u result)
unfolding place_all offer_all
entry_of-place_all u [] result = refl
entry_of-place_all u (c ∷ cs) result =
    entry_of-place_all u cs (place c result) ∙ ap (offer_all u cs) (entry_of-place u c result)

-- An entry that is configured stays, and one that is not gives way to the first that is.
offer_all-some :
    (u : Text) (cs : List Candidate) (old : Candidate)
    → offer_all u cs (some old) ≡ elim old.trust [
      | publisher ↦ or_else (first_configured u cs) (some old)
      | configured ↦ some old
    ]
unfolding offer_all offer first_configured
offer_all-some u [] old = ground arith
offer_all-some u (c ∷ cs) old = ground (arith, offer_all-some u cs old, offer_all-some u cs c)

offer_all-none : (u : Text) (cs : List Candidate) → offer_all u cs none ≡ best u cs
unfolding offer_all offer best first_configured first_of
offer_all-none u [] = refl
offer_all-none u (c ∷ cs) = ground (arith, offer_all-none u cs, offer_all-some u cs c)

-- The candidates that parse and whose origin is not quarantined.
unfoldable pub candidates_of : List (Option Candidate) → List Candidate
candidates_of [] = []
candidates_of (none ∷ cs) = candidates_of cs
candidates_of (some c ∷ cs) = c ∷ candidates_of cs

-- No two entries have one base URL.
abbrev pub Distinct : List Candidate → Type 0
Distinct [] = Unit {0}
Distinct (c ∷ cs) = (entry_of c.base_url cs ≡ none) × Distinct cs

upgrade-base_url :
    (c d : Candidate) → text_eq d.base_url c.base_url ≡ true → (upgrade c d).base_url ≡ d.base_url
upgrade-base_url c d e = ground (arith, text_eq_sound d.base_url c.base_url e)

offer_miss :
    (c d : Candidate) → text_eq d.base_url c.base_url ≡ false → offer d.base_url c none ≡ none
unfolding offer
offer_miss c d miss =
    ground (arith, text_eq_iff d.base_url c.base_url, text_eq_iff c.base_url d.base_url)

place-Distinct : (c : Candidate) (cs : List Candidate) → Distinct cs → Distinct (place c cs)
unfolding place entry_of offer
place-Distinct c [] h = (refl, tt)
place-Distinct c (d ∷ ds) (p, h) = elim (Bool-cases (text_eq d.base_url c.base_url)) [
  | inl hit ↦ rw hit (subst (λ u. entry_of u ds ≡ none) (sym (upgrade-base_url c d hit)) p, h)
  | inr miss ↦
      rw miss (entry_of-place d.base_url c ds ∙ rw p (offer_miss c d miss), place-Distinct c ds h)
]

place_all-Distinct : (cs result : List Candidate) → Distinct result → Distinct (place_all cs result)
unfolding place_all
place_all-Distinct [] result h = h
place_all-Distinct (c ∷ cs) result h =
    place_all-Distinct cs (place c result) (place-Distinct c result h)

module _ (parse_url : Text → Option Url) (href_with_path : Url → Text → Text)
    (is_quarantined : Text → Bool) where
  -- The candidates of the sources in their order, less those of quarantined origins.
  unfoldable pub allowed_of : List (Text × Trust) → List Candidate
  allowed_of vs =
      keep (λ (c : Candidate). not (is_quarantined c.origin))
        (candidates_of (
          map (λ (v : Text × Trust). candidate parse_url href_with_path is_quarantined v.0 v.1) vs))

  kept-allowed :
      (vs : List (Text × Trust)) → kept parse_url href_with_path is_quarantined vs ≡ allowed_of vs
  unfolding kept allowed_of candidates_of
  kept-allowed [] = refl
  kept-allowed ((v, t) ∷ vs) =
      elim (Option-cases (candidate parse_url href_with_path is_quarantined v t)) [
        | inl e ↦ rw (kept, e) (kept-allowed vs)
        | inr (c, e) ↦ rw (kept, e) (ground (arith, kept-allowed vs))
      ]

  -- The plan has one entry for a base URL at most. Among the candidates of the sources that parse
  -- and whose origin is not quarantined, in the order of the sources, that entry is the first
  -- configured one of the base URL, or the first of the base URL if none of them is configured; a
  -- base URL that none of them has is not in the plan.
  pub build-best :
      (i : Input)
      → Distinct (build parse_url href_with_path is_quarantined i)
        × ((u : Text)
            → entry_of u (build parse_url href_with_path is_quarantined i)
              ≡ best u (allowed_of (sources i)))
  unfolding build entry_of
  build-best i =
      let cs = kept parse_url href_with_path is_quarantined (sources i) in
      (
        place_all-Distinct cs [] tt,
        λ u.
            entry_of-place_all u cs []
            ∙ offer_all-none u cs
            ∙ ap (best u) (kept-allowed (sources i)),
      )
