-- ===== src/Prelude/Result.antt =====
-- Results of code that throws: a value, or the error that was thrown.
use mathlib.Core.Path.{◌≡◌, refl}
use mathlib.Core.Bool.{Bool, true, false}
use mathlib.Core.Option.{Option, none, some}
use mathlib.Core.Logic.{◌⊎◌, inl, inr}

pub data Result (E A : Type 0) : Type 0 where
  ok : A → Result E A
  err : E → Result E A

infixl 5 ◌>>=◌ ◌>>◌
abbrev pub ◌>>=◌ : {E A B : Type 0} → Result E A → (A → Result E B) → Result E B
ok a >>= f = f a
err e >>= f = err e

abbrev pub ◌>>◌ : {E B : Type 0} → Result E (Unit {0}) → Result E B → Result E B
m >> k = m >>= λ _. k

abbrev pub ensure : {E : Type 0} → Bool → E → Result E (Unit {0})
ensure true e = ok tt
ensure false e = err e

abbrev pub require : {E A : Type 0} → Option A → E → Result E A
require none e = err e
require (some a) e = ok a

-- Inversion of a successful bind.
pub >>=-eq-ok :
    {E A B : Type 0} (first : Result E A) (rest : A → Result E B) {last : B}
    → (first >>= rest) ≡ ok last
    → (mid : A) × (first ≡ ok mid) × (rest mid ≡ ok last)
>>=-eq-ok (err x) rest e = cc
>>=-eq-ok (ok mid) rest e = (mid, refl, e)

-- Inversion of a bind that fails.
pub >>=-eq-err :
    {E A B : Type 0} (first : Result E A) (rest : A → Result E B) {x : E}
    → (first >>= rest) ≡ err x
    → (first ≡ err x) ⊎ ((mid : A) × (first ≡ ok mid) × (rest mid ≡ err x))
>>=-eq-err (err y) rest e = inl cc
>>=-eq-err (ok mid) rest e = inr (mid, refl, e)

pub ensure-eq-ok : {E : Type 0} (b : Bool) (e : E) {u : Unit {0}} → ensure b e ≡ ok u → b ≡ true
ensure-eq-ok true e h = refl
ensure-eq-ok false e h = cc

-- What a guard, or a lookup, in front of a successful rest has shown.
pub passes :
    {E A : Type 0} (b : Bool) (e : E) (rest : Unit {0} → Result E A) {last : A}
    → (ensure b e >>= rest) ≡ ok last
    → (b ≡ true) × (rest tt ≡ ok last)
passes true e rest h = (refl, h)
passes false e rest h = cc

pub requires :
    {E A B : Type 0} (o : Option A) (e : E) (rest : A → Result E B) {last : B}
    → (require o e >>= rest) ≡ ok last
    → (a : A) × (o ≡ some a) × (rest a ≡ ok last)
requires none e rest h = cc
requires (some a) e rest h = (a, refl, h)

pub Result-cases :
    {E A : Type 0} (r : Result E A) → ((a : A) × (r ≡ ok a)) ⊎ ((e : E) × (r ≡ err e))
Result-cases (ok a) = inl (a, refl)
Result-cases (err e) = inr (e, refl)

pub ok_injective : {E A : Type 0} {a b : A} → Path (Result E A) (ok a) (ok b) → a ≡ b
ok_injective h = cc
