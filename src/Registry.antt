-- ===== src/Registry.antt =====
-- src/nix/merged_cache.ts: the registries of NAR routes. A call reads the clock once: it runs to its end
-- within one turn of the event loop.
pub mod Winner
pub mod Signer
use nixstr_cache.Prelude.{
  ℕ, ◌≤◌, ◌<◌, ◌≡◌, refl, Bool, true, false, not, ◌&&◌, ◌||◌, Option, none, some, List, [], ◌∷◌,
  leb, ltb, ◌==◌, if◌then◌else◌, length, any, all, arith, Text, txt, text_eq, strip, split,
  is_digit, is_lower, is_upper, starts_with,
}

unfoldable pub is_route_char : ℕ → Bool
unfolding is_digit is_lower is_upper
is_route_char c =
    is_upper c
    || is_lower c
    || is_digit c
    || c == b'.'
    || c == b'_'
    || c == b'+'
    || c == b'/'
    || c == b'-'

-- `path.startsWith("/") ? path.slice(1) : path`.
unfoldable pub drop_slash : Text → Text
drop_slash [] = []
drop_slash (c ∷ s) = if c == b'/' then s else c ∷ s

unfoldable pub is_nar_route : Text → Bool
unfolding is_route_char
is_nar_route s =
    (elim (strip (txt "nar/") s) [
      | none ↦ false
      | some r ↦ leb 1 (length r) && all is_route_char r
    ])
    && not (any (text_eq (txt "..")) (split b'/' s))

-- `normalizedNarPath`.
unfoldable pub normalized : Text → Option Text
unfolding drop_slash is_nar_route
normalized path = if is_nar_route (drop_slash path) then some (drop_slash path) else none

-- An entry of either registry: a value until a time.
pub record Entry (V : Type 0) : Type 0 where
  pub value : V
  pub expires_at : ℕ
