-- ===== src/Eligibility/Sweeps.antt =====
-- src/write/eligibility.ts: the sweeps of the loop, by the tests of the code.
use nixstr_cache.Prelude.{
  ℕ, zero, suc, ◌<◌, ◌≡◌, ◌⊎◌, inl, inr, refl, sym, subst, Bool, true, false, List, [], ◌∷◌, ◌++◌,
  ltb, if◌then◌else◌, arith, all, length, Text, All, Any, All-imp, All-append, Bool-cases,
  length-append, lt→ltb,
}
use nixstr_cache.Prelude.Result.{Result, ok}
use nixstr_cache.Eligibility.{Candidate, Error, member, is_present, admits, sweep, close_over}
use nixstr_cache.Eligibility.Sets.{Subset, member_left, all_imp, pending, pending-lt, Subset_snoc}

module _ (staged : Text → Bool) (lower : Text → Bool) (committed : List Text) where
  -- No candidate is left that the set would admit.
  abbrev pub IsSettled : List Candidate → List Text → Type 0
  IsSettled cs a = All (λ c. admits staged lower committed a c ≡ false) cs

  -- A store path of a candidate with a staged archive, all of whose references are the path itself,
  -- committed, admitted or in a lower cache.
  abbrev pub IsBased : List Candidate → List Text → Text → Type 0
  IsBased cs a h =
      Any
        (λ (c : Candidate).
          (c.store_path_hash ≡ h)
          × (staged c.nar_route ≡ true)
          × (all (is_present staged lower committed c.store_path_hash a) c.references ≡ true))
        cs

  pub admits-true :
      (a : List Text) (c : Candidate)
      → admits staged lower committed a c ≡ true
      → (member c.store_path_hash committed ≡ false)
        × (member c.store_path_hash a ≡ false)
        × (staged c.nar_route ≡ true)
        × (all (is_present staged lower committed c.store_path_hash a) c.references ≡ true)
  unfolding admits
  admits-true a c h = ground arith

  present_imp :
      (self : Text) (a b : List Text) (rs : List Text)
      → Subset a b
      → all (is_present staged lower committed self a) rs ≡ true
      → all (is_present staged lower committed self b) rs ≡ true
  present_imp self a b rs s h =
      all_imp (is_present staged lower committed self a) (is_present staged lower committed self b)
        rs (λ r e. ground (arith, s r)) h

  IsBased-imp :
      (cs : List Candidate) (a b : List Text) (h : Text)
      → Subset a b
      → IsBased cs a h
      → IsBased cs b h
  IsBased-imp [] a b h s g = g
  IsBased-imp (c ∷ cs) a b h s (inl (e, f, g)) =
      inl (e, f, present_imp c.store_path_hash a b c.references s g)
  IsBased-imp (c ∷ cs) a b h s (inr g) = inr (IsBased-imp cs a b h s g)

  held :
      (c : Candidate) (a x : List Text)
      → admits staged lower committed x c ≡ false
      → member c.store_path_hash committed ≡ false
      → staged c.nar_route ≡ true
      → all (is_present staged lower committed c.store_path_hash x) c.references ≡ true
      → member c.store_path_hash x ≡ true
  unfolding admits
  held c a x p f i h = ground arith

  -- One round of the inner loop.
  abbrev round : List Text → Candidate → List Text
  round a c = if admits staged lower committed a c then a ++ c.store_path_hash ∷ [] else a

  round-Subset : (a : List Text) (c : Candidate) → Subset a (round a c)
  round-Subset a c h e = ground (arith, member_left a (c.store_path_hash ∷ []) h e)

  sweep-Subset :
      (cs : List Candidate) (a : List Text) → Subset a (sweep staged lower committed cs a)
  unfolding sweep
  sweep-Subset [] a h e = e
  sweep-Subset (c ∷ cs) a h e = sweep-Subset cs (round a c) h (round-Subset a c h e)

  -- A sweep admits nothing and finds the set closed, or it leaves fewer candidates out.
  sweep-progress :
      (all_cs cs : List Candidate) (a : List Text)
      → All (λ c. Any (λ x. x ≡ c) all_cs) cs
      → ((sweep staged lower committed cs a ≡ a) × IsSettled cs a)
        ⊎ ((length a < length (sweep staged lower committed cs a))
            × (pending (sweep staged lower committed cs a) all_cs < pending a all_cs))
  unfolding sweep
  sweep-progress all_cs [] a m = inl (refl, tt)
  sweep-progress all_cs (c ∷ cs) a (p, m) = elim (Bool-cases (admits staged lower committed a c)) [
    | inl e ↦
        let (_, fresh, _, _) = admits-true a c e in
        let less = pending-lt a c all_cs p fresh in
        let longer = length-append a (c.store_path_hash ∷ []) in
        rw e (
          inr (elim (sweep-progress all_cs cs (a ++ c.store_path_hash ∷ []) m) [
            | inl (same, _) ↦ rw same (omega arith, less)
            | inr (f, g) ↦ (omega arith, omega arith)
          ]))
    | inr e ↦ rw e (elim (sweep-progress all_cs cs a m) [
      | inl (same, closed) ↦ inl (same, (refl, closed))
      | inr progressed ↦ inr progressed
    ])
  ]

  sweep-IsBased :
      (all_cs cs : List Candidate) (a : List Text)
      → All (λ c. Any (λ x. x ≡ c) all_cs) cs
      → All (IsBased all_cs a) a
      → All (IsBased all_cs (sweep staged lower committed cs a)) (sweep staged lower committed cs a)
  unfolding sweep
  sweep-IsBased all_cs [] a m g = g
  sweep-IsBased all_cs (c ∷ cs) a (p, m) g = elim (Bool-cases (admits staged lower committed a c)) [
    | inl e ↦
        let (_, _, f, h) = admits-true a c e in
        let b = a ++ c.store_path_hash ∷ [] in
        rw e (
          sweep-IsBased all_cs cs b m (
            All-append (IsBased all_cs b) a (c.store_path_hash ∷ [])
              (All-imp (IsBased all_cs a) (IsBased all_cs b)
                (λ x. IsBased-imp all_cs a b x (member_left a _)) a g)
              (
                grounds c b all_cs p f
                    (present_imp c.store_path_hash a b c.references (member_left a _) h),
                tt,
              )))
    | inr e ↦ rw e (sweep-IsBased all_cs cs a m g)
  ]
    where
      grounds :
          (c : Candidate) (b : List Text) (cs' : List Candidate)
          → Any (λ x. x ≡ c) cs'
          → staged c.nar_route ≡ true
          → all (is_present staged lower committed c.store_path_hash b) c.references ≡ true
          → IsBased cs' b c.store_path_hash
      grounds c b [] m f h = m
      grounds c b (d ∷ ds) (inl e) f h = inl (
          subst
            (λ (x : Candidate).
              (x.store_path_hash ≡ c.store_path_hash)
              × (staged x.nar_route ≡ true)
              × (all (is_present staged lower committed x.store_path_hash b) x.references ≡ true))
            (sym e) (refl, f, h))
      grounds c b (d ∷ ds) (inr m) f h = inr (grounds c b ds m f h)

  -- A set that is closed holds what a sweep adds to a part of it.
  sweep-least :
      (cs : List Candidate) (a x : List Text)
      → IsSettled cs x
      → All (λ h. member h x ≡ true) a
      → Subset a x
      → All (λ h. member h x ≡ true) (sweep staged lower committed cs a)
        × Subset (sweep staged lower committed cs a) x
  unfolding sweep
  sweep-least [] a x closed g s = (g, s)
  sweep-least (c ∷ cs) a x (p, closed) g s = elim (Bool-cases (admits staged lower committed a c)) [
    | inl e ↦
        let (f, _, i, h) = admits-true a c e in
        let found = held c a x p f i (present_imp c.store_path_hash a x c.references s h) in
        rw e (
          sweep-least cs (a ++ c.store_path_hash ∷ []) x closed
            (All-append (λ h. member h x ≡ true) a (c.store_path_hash ∷ []) g (found, tt))
            (Subset_snoc a x c.store_path_hash s found))
    | inr e ↦ rw e (sweep-least cs a x closed g s)
  ]

  -- The least closed set, of grounded store paths.
  pub record IsSwept (cs : List Candidate) (a : List Text) : Type 0 where
    pub grounded : All (IsBased cs a) a
    pub closed : IsSettled cs a
    pub least : (x : List Text) → IsSettled cs x → All (λ h. member h x ≡ true) a

  unfoldable pub Below : List Candidate → List Text → Type 0
  Below cs a = (x : List Text) → IsSettled cs x → All (λ h. member h x ≡ true) a × Subset a x

  pub close_over-IsSwept :
      (fuel : ℕ) (cs : List Candidate) (a : List Text)
      → pending a cs < fuel
      → All (λ c. Any (λ x. x ≡ c) cs) cs
      → All (IsBased cs a) a
      → Below cs a
      → (r : List Text) × (close_over staged lower committed fuel cs a ≡ ok r) × IsSwept cs r
  unfolding close_over Below
  close_over-IsSwept zero cs a h m g b = absurd (omega arith)
  close_over-IsSwept (suc fuel) cs a h m g b =
      let next = sweep staged lower committed cs a in
      elim (sweep-progress cs cs a m) [
        | inl (same, closed) ↦ (
          a,
          rw same (stops a),
          record { grounded = g; closed = closed; least = λ x c. (b x c).0 },
        )
        | inr (longer, less) ↦
            let (r, e, v) =
              close_over-IsSwept fuel cs next (omega arith) m (sweep-IsBased cs cs a m g)
                (λ x c. sweep-least cs a x c ((b x c).0) ((b x c).1)) in
            (r, rw (lt→ltb (length a) (length next) longer) e, v)
      ]
    where
      stops :
          (a : List Text)
          → Path
              (Result Error (List Text))
              (if ltb (length a) (length a)
                then close_over staged lower committed fuel cs a
                else ok a)
              (ok a)
      stops a = ground arith
