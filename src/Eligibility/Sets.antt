-- ===== src/Eligibility/Sets.antt =====
-- src/write/eligibility.ts: sets of hashes as lists, and the candidates that a set leaves out.
use nixstr_cache.Prelude.{
  ℕ, ◌≤◌, ◌<◌, ◌≡◌, ◌⊎◌, inl, inr, refl, sym, subst, Bool, true, false, List, [], ◌∷◌, ◌++◌,
  if◌then◌else◌, arith, all, length, Text, text_eq_refl, text_eq_iff, All, Any, sum_of,
}
use nixstr_cache.Eligibility.{Candidate, member}

abbrev pub Subset : List Text → List Text → Type 0
Subset a b = (h : Text) → member h a ≡ true → member h b ≡ true

pub member_left : (a b : List Text) → Subset a (a ++ b)
member_left [] b h e = ground arith
member_left (x ∷ a) b h e = ground (arith, member_left a b h)

pub member_last : (a : List Text) (h : Text) → member h (a ++ h ∷ []) ≡ true
member_last [] h = rw (text_eq_refl h) refl
member_last (x ∷ a) h = ground (arith, member_last a h)

pub all_imp :
    (f g : Text → Bool) (rs : List Text)
    → ((r : Text) → f r ≡ true → g r ≡ true)
    → all f rs ≡ true
    → all g rs ≡ true
all_imp f g [] i h = refl
all_imp f g (r ∷ rs) i h = ground (arith, i r, all_imp f g rs i)

-- The candidates that are not admitted.
abbrev pub pending : List Text → List Candidate → ℕ
pending a = sum_of (λ (c : Candidate). if member c.store_path_hash a then 0 else 1)

pub pending-le : (a b : List Text) (cs : List Candidate) → Subset a b → pending b cs ≤ pending a cs
pending-le a b [] s = omega arith
pending-le a b (c ∷ cs) s = ground (arith, s c.store_path_hash, pending-le a b cs s)

pub pending-lt :
    (a : List Text) (c : Candidate) (cs : List Candidate)
    → Any (λ x. x ≡ c) cs
    → member c.store_path_hash a ≡ false
    → pending (a ++ c.store_path_hash ∷ []) cs < pending a cs
pending-lt a c [] m h = absurd m
pending-lt a c (d ∷ ds) (inl e) h =
    subst (λ x. pending (a ++ c.store_path_hash ∷ []) (x ∷ ds) < pending a (x ∷ ds)) (sym e)
      (rw (h, member_last a c.store_path_hash)
        (ground (arith, pending-le a (a ++ c.store_path_hash ∷ []) ds (member_left a _))))
pending-lt a c (d ∷ ds) (inr m) h =
    ground (arith, pending-lt a c ds m h, member_left a (c.store_path_hash ∷ []) d.store_path_hash)

pub pending-length : (cs : List Candidate) → pending [] cs ≤ length cs
pending-length [] = omega arith
pending-length (c ∷ cs) = ground (arith, pending-length cs)

pub member_snoc :
    (a : List Text) (h g : Text) → member g (a ++ h ∷ []) ≡ true → (member g a ≡ true) ⊎ (h ≡ g)
member_snoc [] h g e = ground (arith, text_eq_iff h g)
member_snoc (x ∷ a) h g e = ground (arith, member_snoc a h g)

pub Subset_snoc :
    (a x : List Text) (h : Text) → Subset a x → member h x ≡ true → Subset (a ++ h ∷ []) x
Subset_snoc a x h s e g m = ground (arith, member_snoc a h g m, s g)

pub members_each :
    (cs ds : List Candidate)
    → ((c : Candidate) → Any (λ x. x ≡ c) cs → Any (λ x. x ≡ c) ds)
    → All (λ c. Any (λ x. x ≡ c) ds) cs
members_each [] ds s = tt
members_each (c ∷ cs) ds s = (s c (inl refl), members_each cs ds (λ d m. s d (inr m)))
