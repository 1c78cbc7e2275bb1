-- ===== src/Prelude/Strings.antt =====
-- The string methods that the source calls, on code units.
use Prim.Native.Nat.{ℕ, zero, suc, ◌+◌, ◌-◌, ◌*◌, ◌/◌, ◌%◌}
use mathlib.Core.Path.{◌≡◌, refl, ap}
use mathlib.Core.Bool.{Bool, true, false, ◌&&◌, ◌||◌}
use mathlib.Core.Option.{Option, none, some}
use mathlib.Core.List.{List, [], ◌∷◌, ◌++◌}
use native.Mathlib.Omega.{arith}
use nixstr_cache.Prelude.Tests.{ltb, leb, ◌==◌, if◌then◌else◌}
use nixstr_cache.Prelude.Lists.{any}
use nixstr_cache.Prelude.Texts.{Text}

-- `includes` of one character.
unfoldable pub has_char : ℕ → Text → Bool
has_char c s = any (λ d. d == c) s

-- `split` at one character: at least one part.
unfoldable pub split_from : ℕ → Text → Text → List Text
split_from c cur [] = cur ∷ []
split_from c cur (x ∷ s) =
    let closed = cur ∷ split_from c [] s in
    let longer = split_from c (cur ++ x ∷ []) s in if x == c then closed else longer

unfoldable pub split : ℕ → Text → List Text
split c s = split_from c [] s

-- `startsWith`; the rest after the prefix.
unfoldable pub strip : Text → Text → Option Text
strip [] s = some s
strip (p ∷ ps) [] = none
strip (p ∷ ps) (x ∷ s) = if p == x then strip ps s else none

unfoldable pub starts_with : Text → Text → Bool
unfolding strip
starts_with p s = elim (strip p s) [ some _ ↦ true | none ↦ false ]

-- The text before and after the first `c`.
unfoldable pub cut : ℕ → Text → Option (Text × Text)
cut c [] = none
cut c (x ∷ s) =
    if x == c then some ([], s) else elim (cut c s) [ none ↦ none | some (a, b) ↦ some (x ∷ a, b) ]

-- The text before and after the first `c` that `d` follows.
unfoldable pub cut_pair : ℕ → ℕ → Text → Option (Text × Text)
cut_pair c d [] = none
cut_pair c d (x ∷ []) = none
cut_pair c d (x ∷ y ∷ s) =
    if x == c && y == d
    then some ([], s)
    else elim (cut_pair c d (y ∷ s)) [ none ↦ none | some (a, b) ↦ some (x ∷ a, b) ]

-- `slice(0, -1)`.
unfoldable pub drop_last : Text → Text
drop_last [] = []
drop_last (x ∷ []) = []
drop_last (x ∷ y ∷ s) = x ∷ drop_last (y ∷ s)

-- `endsWith` of one character.
unfoldable pub ends_with : ℕ → Text → Bool
ends_with c [] = false
ends_with c (x ∷ []) = x == c
ends_with c (x ∷ y ∷ s) = ends_with c (y ∷ s)

-- `join`.
unfoldable pub join : Text → List Text → Text
join sep [] = []
join sep (x ∷ []) = x
join sep (x ∷ y ∷ xs) = x ++ (sep ++ join sep (y ∷ xs))

unfoldable pub is_digit : ℕ → Bool
is_digit c = leb b'0' c && leb c b'9'

unfoldable pub is_lower : ℕ → Bool
is_lower c = leb b'a' c && leb c b'z'

unfoldable pub is_upper : ℕ → Bool
is_upper c = leb b'A' c && leb c b'Z'

-- `\s` of a regular expression.
unfoldable pub is_space : ℕ → Bool
is_space c =
    (leb 9 c && leb c 13)
    || c == 32
    || c == 160
    || c == 0x1680
    || (leb 0x2000 c && leb c 0x200a)
    || c == 0x2028
    || c == 0x2029
    || c == 0x202f
    || c == 0x205f
    || c == 0x3000
    || c == 0xfeff

-- The value of a run of digits, and the digits of a value.
unfoldable pub decimal_value : ℕ → Text → ℕ
decimal_value acc [] = acc
decimal_value acc (c ∷ s) = decimal_value (acc * 10 + (c - b'0')) s

unfoldable pub decimal_from : ℕ → ℕ → Text → Text
decimal_from zero n rest = rest
decimal_from (suc f) n rest =
    let digit = (b'0' + n % 10) ∷ rest in
    let more = decimal_from f (n / 10) digit in if ltb n 10 then digit else more

-- `String(n)`; a number has no more digits than its successor has units.
unfoldable pub decimal : ℕ → Text
unfolding decimal_from
decimal n = decimal_from (suc n) n []

pub ends_with-append : (c : ℕ) (s : Text) → ends_with c (s ++ c ∷ []) ≡ true
unfolding ends_with
ends_with-append c [] = ground arith
ends_with-append c (x ∷ []) = ground arith
ends_with-append c (x ∷ y ∷ s) = ends_with-append c (y ∷ s)

pub drop_last-append : (c : ℕ) (s : Text) → drop_last (s ++ c ∷ []) ≡ s
unfolding drop_last
drop_last-append c [] = refl
drop_last-append c (x ∷ []) = refl
drop_last-append c (x ∷ y ∷ s) = ap (◌∷◌ x) (drop_last-append c (y ∷ s))

pub ends_with-drop_last : (c : ℕ) (s : Text) → ends_with c s ≡ true → s ≡ drop_last s ++ c ∷ []
unfolding ends_with drop_last
ends_with-drop_last c [] h = cc
ends_with-drop_last c (x ∷ []) h = ground arith
ends_with-drop_last c (x ∷ y ∷ s) h = ap (◌∷◌ x) (ends_with-drop_last c (y ∷ s) h)
