-- ===== src/Eligibility/Closure.antt =====
-- src/write/eligibility.ts: the set of admitted store paths.
use nixstr_cache.Prelude.{
  ℕ, suc, ◌≡◌, ◌⊎◌, inl, inr, refl, Bool, true, false, List, [], ◌∷◌, arith, all, length, Text,
  text_eq, text_eq_sound, text_eq_iff, All, Any, All-imp, Bool-cases, and_cases,
}
use nixstr_cache.Prelude.Result.{ok}
use nixstr_cache.Eligibility.{Candidate, member, check_metadata, is_present, admits, recompute}
use nixstr_cache.Eligibility.Sets.{pending-length, members_each}
use nixstr_cache.Eligibility.Sweeps.{
  IsSettled, IsBased, IsSwept, Below, admits-true, close_over-IsSwept,
}

-- A hash is in a list.
abbrev pub In : Text → List Text → Type 0
In h = Any (λ x. x ≡ h)

member-In : (h : Text) (xs : List Text) → member h xs ≡ true → In h xs
member-In h [] e = ground arith
member-In h (x ∷ xs) e = elim (Bool-cases (text_eq x h)) [
  | inl same ↦ inl (text_eq_sound x h same)
  | inr other ↦ inr (member-In h xs (ground (arith, other)))
]

In-member : (h : Text) (xs : List Text) → In h xs → member h xs ≡ true
In-member h [] m = absurd m
In-member h (x ∷ xs) (inl e) = ground (arith, text_eq_iff x h)
In-member h (x ∷ xs) (inr m) = ground (arith, In-member h xs m)

module _ (staged : Text → Bool) (lower : Text → Bool) (committed : List Text) where
  -- A reference of a path is the path itself, committed, in the set or in a lower cache.
  abbrev pub IsPresent : Text → List Text → Text → Type 0
  IsPresent self a r = (r ≡ self) ⊎ In r committed ⊎ In r a ⊎ (lower r ≡ true)

  -- A store path of a candidate with a staged archive and present references.
  abbrev pub IsGrounded : List Candidate → List Text → Text → Type 0
  IsGrounded cs a h =
      Any
        (λ (c : Candidate).
          (c.store_path_hash ≡ h)
          × (staged c.nar_route ≡ true)
          × All (IsPresent c.store_path_hash a) c.references)
        cs

  -- Each candidate with a staged archive and present references is committed or in the set.
  abbrev pub IsClosed : List Candidate → List Text → Type 0
  IsClosed cs a =
      All
        (λ (c : Candidate).
          staged c.nar_route ≡ true
          → All (IsPresent c.store_path_hash a) c.references
          → In c.store_path_hash committed ⊎ In c.store_path_hash a)
        cs

  -- The least closed set, of grounded store paths.
  pub record IsClosure (cs : List Candidate) (a : List Text) : Type 0 where
    pub grounded : All (IsGrounded cs a) a
    pub closed : IsClosed cs a
    pub least : (x : List Text) → IsClosed cs x → All (λ h. In h x) a

  is_present-IsPresent :
      (self : Text) (a : List Text) (r : Text)
      → is_present staged lower committed self a r ≡ true
      → IsPresent self a r
  is_present-IsPresent self a r e = elim (Bool-cases (text_eq r self)) [
    | inl own ↦ inl (text_eq_sound r self own)
    | inr other ↦ elim (Bool-cases (member r committed)) [
      | inl old ↦ inr (inl (member-In r committed old))
      | inr new ↦ elim (Bool-cases (member r a)) [
        | inl held ↦ inr (inr (inl (member-In r a held)))
        | inr absent ↦ inr (inr (inr (ground (arith, other, new, absent))))
      ]
    ]
  ]

  IsPresent-is_present :
      (self : Text) (a : List Text) (r : Text)
      → IsPresent self a r
      → is_present staged lower committed self a r ≡ true
  IsPresent-is_present self a r (inl e) = ground (arith, text_eq_iff r self)
  IsPresent-is_present self a r (inr (inl m)) = ground (arith, In-member r committed m)
  IsPresent-is_present self a r (inr (inr (inl m))) = ground (arith, In-member r a m)
  IsPresent-is_present self a r (inr (inr (inr l))) = ground arith

  all-IsPresent :
      (self : Text) (a rs : List Text)
      → all (is_present staged lower committed self a) rs ≡ true
      → All (IsPresent self a) rs
  all-IsPresent self a [] e = tt
  all-IsPresent self a (r ∷ rs) e =
      let (p, ps) = and_cases _ _ e in (is_present-IsPresent self a r p, all-IsPresent self a rs ps)

  IsPresent-all :
      (self : Text) (a rs : List Text)
      → All (IsPresent self a) rs
      → all (is_present staged lower committed self a) rs ≡ true
  IsPresent-all self a [] h = refl
  IsPresent-all self a (r ∷ rs) (p, ps) =
      rw (IsPresent-is_present self a r p) (IsPresent-all self a rs ps)

  IsBased-IsGrounded :
      (cs : List Candidate) (a : List Text) (h : Text)
      → IsBased staged lower committed cs a h
      → IsGrounded cs a h
  IsBased-IsGrounded [] a h m = m
  IsBased-IsGrounded (c ∷ cs) a h (inl (e, f, g)) =
      inl (e, f, all-IsPresent c.store_path_hash a c.references g)
  IsBased-IsGrounded (c ∷ cs) a h (inr m) = inr (IsBased-IsGrounded cs a h m)

  left_out :
      (a : List Text) (c : Candidate)
      → admits staged lower committed a c ≡ false
      → staged c.nar_route ≡ true
      → all (is_present staged lower committed c.store_path_hash a) c.references ≡ true
      → member c.store_path_hash committed ≡ false
      → member c.store_path_hash a ≡ true
  unfolding admits
  left_out a c e f g h = ground arith

  IsSettled-IsClosed :
      (cs : List Candidate) (a : List Text) → IsSettled staged lower committed cs a → IsClosed cs a
  IsSettled-IsClosed [] a h = tt
  IsSettled-IsClosed (c ∷ cs) a (e, h) = (
    λ f g. elim (Bool-cases (member c.store_path_hash committed)) [
      | inl old ↦ inl (member-In c.store_path_hash committed old)
      | inr new ↦ inr (
          member-In c.store_path_hash a
            (left_out a c e f (IsPresent-all c.store_path_hash a c.references g) new))
    ],
    IsSettled-IsClosed cs a h,
  )

  IsClosed-IsSettled :
      (cs : List Candidate) (a : List Text) → IsClosed cs a → IsSettled staged lower committed cs a
  IsClosed-IsSettled [] a h = tt
  IsClosed-IsSettled (c ∷ cs) a (p, h) = (
    elim (Bool-cases (admits staged lower committed a c)) [
      | inl e ↦
          let (new, fresh, f, g) = admits-true staged lower committed a c e in
          elim (p f (all-IsPresent c.store_path_hash a c.references g)) [
            | inl m ↦ absurd (ground (arith, new, In-member c.store_path_hash committed m))
            | inr m ↦ absurd (ground (arith, fresh, In-member c.store_path_hash a m))
          ]
      | inr e ↦ e
    ],
    IsClosed-IsSettled cs a h,
  )

  IsSwept-IsClosure :
      (cs : List Candidate) (a : List Text) → IsSwept staged lower committed cs a → IsClosure cs a
  IsSwept-IsClosure cs a s = record {
    grounded =
        All-imp (IsBased staged lower committed cs a) (IsGrounded cs a)
          (λ h. IsBased-IsGrounded cs a h) a s.grounded;
    closed = IsSettled-IsClosed cs a s.closed;
    least = λ x c.
        All-imp (λ h. member h x ≡ true) (λ h. In h x) (λ h. member-In h x) a
          (s.least x (IsClosed-IsSettled cs x c));
  }

  -- If the metadata is within its ceiling, the loop ends, and what it commits is exactly the least
  -- closed set: each path is of a candidate whose archive is staged and whose references are the
  -- path itself, committed, in the set or in a lower cache; each candidate like that is committed
  -- or in the set; and every closed set holds the paths.
  pub recompute-IsClosure :
      (max_metadata : ℕ) (cs : List Candidate)
      → check_metadata max_metadata 0 cs ≡ ok tt
      → (a : List Text) × (recompute staged lower committed max_metadata cs ≡ ok a) × IsClosure cs a
  unfolding recompute Below
  recompute-IsClosure max_metadata cs h =
      let (a, e, s) =
        close_over-IsSwept staged lower committed (suc (length cs)) cs []
          (omega (arith, pending-length cs)) (members_each cs cs (λ c m. m)) tt
          (λ x c. (tt, λ g e. ground arith)) in
      (a, rw h e, IsSwept-IsClosure cs a s)
