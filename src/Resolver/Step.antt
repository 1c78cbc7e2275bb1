-- ===== src/Resolver/Step.antt =====
-- src/hashtree/reader.ts: the state of one request, kept when a call throws.
use nixstr_cache.Prelude.{ℕ, suc, Bool, true, false, List, Text}
use nixstr_cache.Budget
use nixstr_cache.Budget.{Budget, Outcome}
use nixstr_cache.Manifest
use nixstr_cache.Manifest.{Manifest, Validated}
use nixstr_cache.Prelude.Result.{Result, ok, err}

-- What a call of the resolver throws.
pub data Error : Type 0 where
  spent : Budget.Error → Error
  invalid : Manifest.Error → Error
  unavailable nar_failed : List Text → Error
  absent wrong_type not_file not_child wrong_size wrong_child_size is_directory : Error
  unsafe_size changed_size exceeded_size out_of_fuel : Error

-- The request budget, the map `manifests` of `resolve`, and how often the clock was read.
pub record State : Type 0 where
  pub budget : Budget
  pub manifests : List (Text × Manifest)
  pub tick : ℕ

pub data Reply (A : Type 0) : Type 0 where
  done : A → State → Reply A
  failed : Error → State → Reply A

abbrev pub Step : Type 0 → Type 0
Step A = State → Reply A

infixl 5 ◌>>=◌ ◌>>◌
abbrev pub continue : {A B : Type 0} → Reply A → (A → Step B) → Reply B
continue (done a s) f = f a s
continue (failed e s) f = failed e s

abbrev pub ◌>>=◌ : {A B : Type 0} → Step A → (A → Step B) → Step B
m >>= f = λ s. continue (m s) f

abbrev pub ◌>>◌ : {B : Type 0} → Step (Unit {0}) → Step B → Step B
m >> k = m >>= λ _. k

abbrev pub pure : {A : Type 0} → A → Step A
pure a s = done a s

abbrev pub throw : {A : Type 0} → Error → Step A
throw e s = failed e s

abbrev pub ensure : Bool → Error → Step (Unit {0})
ensure true e s = done tt s
ensure false e s = failed e s

abbrev pub of_result : {E A : Type 0} → (E → Error) → Result E A → Step A
of_result f (ok a) s = done a s
of_result f (err e) s = failed (f e) s

-- The state that a call leaves, and what it returns.
abbrev pub after : {A : Type 0} → Reply A → State
after (done a s) = s
after (failed e s) = s

abbrev pub value : {A : Type 0} → Reply A → Result Error A
value (done a s) = ok a
value (failed e s) = err e

abbrev pub on_outcome : {A : Type 0} → Outcome A → State → Reply A
on_outcome (Outcome.done a b) s = done a (record s { budget = b; tick = suc s.tick })
on_outcome (Outcome.threw e) s = failed (spent e) (record s { tick = suc s.tick })

-- A call on the budget, at the clock's next reading.
unfoldable pub spend : {A : Type 0} → (ℕ → ℕ) → (ℕ → Budget → Outcome A) → Step A
spend clock call s = on_outcome (call (clock s.tick) s.budget) s
