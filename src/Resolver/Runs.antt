-- ===== src/Resolver/Runs.antt =====
-- src/hashtree/reader.ts: what every call of the resolver keeps, and the rules for their sequence.
use nixstr_cache.Prelude.{ℕ, ◌≡◌, refl, ◌∙◌, Bool, true, false, Option, some, All, Text, arith}
use nixstr_cache.Prelude.Result.{Result, ok, err}
use nixstr_cache.Budget
use nixstr_cache.Budget.{Budget, Outcome}
use nixstr_cache.Budget.Bounds.{IsWithin, Spends}
use nixstr_cache.Manifest.{Manifest}
use nixstr_cache.Resolver.Step.{
  Error, absent, out_of_fuel, State, Reply, done, failed, Step, continue, ◌>>=◌, ◌>>◌, pure, throw,
  ensure, after, value, on_outcome, spend,
}

-- Nothing spent is given back, and no slot stays held.
pub record Keeps (b b' : Budget) : Type 0 where
  pub spends : Spends b b'
  pub slots : b'.concurrent ≡ b.concurrent
  pub within : IsWithin b → IsWithin b'

-- A request under given limits, whose known manifests are those of a tree.
pub record IsRequest (given : Budget.Limits) (tree : Text → Option Manifest) (s : State)
    : Type 0 where
  pub limits : s.budget.limits ≡ given
  pub known : All (λ e. tree e.0 ≡ some (e.1)) s.manifests

-- An error, when a verified absence has its reason, and the fuel is never used up.
abbrev pub Explained : Type 0 → Error → Type 0
Explained X absent = X
Explained X out_of_fuel = ⊥
Explained X _ = Unit {0}

abbrev pub Post : {A : Type 0} → (A → Type 0) → Type 0 → Result Error A → Type 0
Post R X (ok a) = R a
Post R X (err e) = Explained X e

Explained-weaken : (X Y : Type 0) → (X → Y) → (e : Error) → Explained X e → Explained Y e
Explained-weaken X Y f absent h = f h
Explained-weaken X Y f out_of_fuel h = h
Explained-weaken X Y f _ h = tt

pub Keeps-refl : (b : Budget) → Keeps b b
Keeps-refl b = ground arith

pub Keeps-trans : (a b c : Budget) → Keeps a b → Keeps b c → Keeps a c
Keeps-trans a b c h k = record {
  spends = ground (arith, h.spends, k.spends);
  slots = k.slots ∙ h.slots;
  within = λ v. k.within (h.within v);
}

-- What a call on the budget keeps, when it returns.
abbrev pub Fair : {A : Type 0} → Budget → (A → Type 0) → Outcome A → Type 0
Fair b R (Outcome.done a b') = Keeps b b' × R a
Fair b R (Outcome.threw e) = Unit {0}

module _ (limits : Budget.Limits) (tree : Text → Option Manifest) where
  pub record Good {A : Type 0} (R : A → Type 0) (X : Type 0) (s : State) (r : Reply A)
      : Type 0 where
    pub keeps : Keeps s.budget (after r).budget
    pub request : IsRequest limits tree (after r)
    pub value : Post R X (value r)

  abbrev pub Runs : {A : Type 0} → (A → Type 0) → Type 0 → Step A → Type 0
  Runs R X m = (s : State) → IsRequest limits tree s → Good R X s (m s)

  pub Runs-pure : {A : Type 0} (R : A → Type 0) (X : Type 0) (a : A) → R a → Runs R X (pure a)
  Runs-pure R X a h s v = record { keeps = Keeps-refl s.budget; request = v; value = h }

  pub Runs-throw :
      {A : Type 0} (R : A → Type 0) (X : Type 0) (e : Error) → Explained X e → Runs R X (throw e)
  Runs-throw R X e h s v = record { keeps = Keeps-refl s.budget; request = v; value = h }

  pub Runs-ensure :
      (X : Type 0) (b : Bool) (e : Error) → Explained X e → Runs (λ _. b ≡ true) X (ensure b e)
  Runs-ensure X true e h s v = record { keeps = Keeps-refl s.budget; request = v; value = refl }
  Runs-ensure X false e h s v = record { keeps = Keeps-refl s.budget; request = v; value = h }

  -- A call and what follows it.
  pub Runs-then :
      {A B : Type 0} (P : A → Type 0) (Q : B → Type 0) (X : Type 0) (m : Step A) (f : A → Step B)
      → Runs P X m
      → ((a : A) → P a → Runs Q X (f a))
      → Runs Q X (m >>= f)
  Runs-then {A} {B} P Q X m f h k s v = next (m s) (h s v)
    where
      next : (r : Reply A) → Good P X s r → Good Q X s (continue r f)
      next (done a s') g =
          let t = k a g.value s' g.request in
          record {
            keeps = Keeps-trans s.budget s'.budget (after (f a s')).budget g.keeps t.keeps;
            request = t.request;
            value = t.value;
          }
      next (failed e s') g = record { keeps = g.keeps; request = g.request; value = g.value }

  pub Runs-guard :
      {B : Type 0} (Q : B → Type 0) (X : Type 0) (b : Bool) (e : Error) (m : Step B)
      → Explained X e
      → (b ≡ true → Runs Q X m)
      → Runs Q X (ensure b e >> m)
  Runs-guard Q X b e m h k =
      Runs-then (λ _. b ≡ true) Q X (ensure b e) (λ _. m) (Runs-ensure X b e h) (λ _ t. k t)

  pub Runs-weaken :
      {A : Type 0} (P Q : A → Type 0) (X Y : Type 0) (m : Step A)
      → ((a : A) → P a → Q a)
      → (X → Y)
      → Runs P X m
      → Runs Q Y m
  Runs-weaken {A} P Q X Y m f g h s v =
      let r = h s v in record { keeps = r.keeps; request = r.request; value = weaker (m s) r.value }
    where
      weaker : (r : Reply A) → Post P X (value r) → Post Q Y (value r)
      weaker (done a s) h = f a h
      weaker (failed e s) h = Explained-weaken X Y g e h

  pub Runs-spend :
      {A : Type 0} (R : A → Type 0) (X : Type 0) (clock : ℕ → ℕ) (call : ℕ → Budget → Outcome A)
      → ((now : ℕ) (b : Budget) → b.limits ≡ limits → Fair b R (call now b))
      → Runs R X (spend clock call)
  unfolding spend
  Runs-spend {A} R X clock call h s v =
      fair (call (clock s.tick) s.budget) (h (clock s.tick) s.budget v.limits)
    where
      fair : (o : Outcome A) → Fair s.budget R o → Good R X s (on_outcome o s)
      fair (Outcome.done a b) (k, r) = record {
        keeps = k;
        request = record { limits = (k.spends).limits ∙ v.limits; known = v.known };
        value = r;
      }
      fair (Outcome.threw e) _ = record {
        keeps = Keeps-refl s.budget;
        request = record { limits = v.limits; known = v.known };
        value = tt;
      }
