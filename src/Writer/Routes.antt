-- ===== src/Writer/Routes.antt =====
-- src/hashtree/writer.ts, `#build`: the checks of the logical routes. `utf8` is `TextEncoder.encode`.
use nixstr_cache.Prelude.{
  ℕ, ◌+◌, ◌≤◌, ◌≡◌, refl, Bool, true, false, not, ◌&&◌, ◌||◌, Option, none, some, List, [], ◌∷◌,
  keep, any, All, All-imp, leb, leb→le, length, Text, txt, text_eq, text_lt, text_lt_trans,
  has_char, split, arith,
}
use nixstr_cache.Prelude.Result.{Result, ok, ◌>>◌, ensure, passes, >>=-eq-ok, ensure-eq-ok}
use nixstr_cache.SourcePlan.{is_empty}

pub data Error : Type 0 where
  too_many_entries unsafe_route route_too_long route_too_deep not_ordered : Error

-- The limits of the routes, with their defaults put in.
pub record Limits : Type 0 where
  pub max_entries : ℕ
  pub max_route_bytes : ℕ
  pub max_route_depth : ℕ

-- `maxEntries ?? maxInventoryBlobs`, `maxRouteBytes ?? 4096` and `maxRouteDepth ?? 32`.
abbrev or_else : Option ℕ → ℕ → ℕ
or_else none n = n
or_else (some m) n = m

unfoldable pub limits_of : ℕ → Option ℕ → Option ℕ → Option ℕ → Limits
limits_of max_inventory_blobs entries bytes depth = record {
  max_entries = or_else entries max_inventory_blobs;
  max_route_bytes = or_else bytes 4096;
  max_route_depth = or_else depth 32;
}

unfoldable pub parts_of : Text → List Text
parts_of route = keep (λ t. not (is_empty t)) (split b'/' route)

abbrev pub is_unsafe : Text → Bool
is_unsafe t = text_eq t (txt ".") || (text_eq t (txt "..") || has_char 0 t)

module _ (utf8 : Text → List ℕ) (limits : Limits) where
  abbrev pub follows : Option Text → Text → Bool
  follows none route = true
  follows (some previous) route = text_lt (utf8 previous) (utf8 route)

  -- The checks of one route, with the number of entries and the previous route.
  unfoldable pub check_route : ℕ → Option Text → Text → Result Error (Unit {0})
  check_route entries previous route = do
    ensure (leb entries limits.max_entries) too_many_entries
    ensure (not (leb (length (parts_of route)) 0) && not (any is_unsafe (parts_of route)))
        unsafe_route
    ensure (leb (length (utf8 route)) limits.max_route_bytes) route_too_long
    ensure (leb (length (parts_of route)) limits.max_route_depth) route_too_deep
    ensure (follows previous route) not_ordered

  -- The loop over the files.
  unfoldable pub check_routes : ℕ → Option Text → List Text → Result Error (Unit {0})
  check_routes entries previous [] = ok tt
  check_routes entries previous (r ∷ rs) =
      check_route (entries + 1) previous r >> check_routes (entries + 1) (some r) rs

  -- What a route that passes is.
  pub record IsRoute (r : Text) : Type 0 where
    pub nonempty : 1 ≤ length (parts_of r)
    pub safe : any is_unsafe (parts_of r) ≡ false
    pub bytes : length (utf8 r) ≤ limits.max_route_bytes
    pub depth : length (parts_of r) ≤ limits.max_route_depth

  -- Each route is below every later one, by its UTF-8.
  abbrev pub AreOrdered : List Text → Type 0
  AreOrdered [] = Unit {0}
  AreOrdered (r ∷ rs) = All (λ q. text_lt (utf8 r) (utf8 q) ≡ true) rs × AreOrdered rs

  check_route-IsRoute :
      (entries : ℕ) (previous : Option Text) (r : Text) {u : Unit {0}}
      → check_route entries previous r ≡ ok u
      → (entries ≤ limits.max_entries) × IsRoute r × (follows previous r ≡ true)
  unfolding check_route
  check_route-IsRoute entries previous r h =
      let (a, h1) = passes (leb entries limits.max_entries) too_many_entries _ h in
      let (b, h2) =
        passes (not (leb (length (parts_of r)) 0) && not (any is_unsafe (parts_of r))) unsafe_route
          _ h1 in
      let (c, h3) = passes (leb (length (utf8 r)) limits.max_route_bytes) route_too_long _ h2 in
      let (d, h4) = passes (leb (length (parts_of r)) limits.max_route_depth) route_too_deep _ h3 in
      (
        leb→le _ _ a,
        record {
          nonempty = ground (arith, b);
          safe = ground (arith, b);
          bytes = leb→le _ _ c;
          depth = leb→le _ _ d;
        },
        ensure-eq-ok (follows previous r) not_ordered h4,
      )

  follows_trans :
      (p : Option Text) (r q : Text)
      → follows p r ≡ true
      → text_lt (utf8 r) (utf8 q) ≡ true
      → follows p q ≡ true
  follows_trans none r q h k = refl
  follows_trans (some p) r q h k = text_lt_trans (utf8 p) (utf8 r) (utf8 q) h k

  checked :
      (entries : ℕ) (p : Option Text) (rs : List Text) {u : Unit {0}}
      → entries ≤ limits.max_entries
      → check_routes entries p rs ≡ ok u
      → (entries + length rs ≤ limits.max_entries)
        × All IsRoute rs
        × AreOrdered rs
        × All (λ q. follows p q ≡ true) rs
  unfolding check_routes
  checked entries p [] few h = (omega (arith, few), tt, tt, tt)
  checked entries p (r ∷ rs) few h =
      let (_, e, h1) = >>=-eq-ok (check_route (entries + 1) p r) _ h in
      let (a, b, c) = check_route-IsRoute (entries + 1) p r e in
      let (d, f, g, k) = checked (entries + 1) (some r) rs a h1 in
      (omega (arith, d), (b, f), (k, g), (c, All-imp _ _ (λ q l. follows_trans p r q c l) rs k))

  -- The routes of a build that passes the checks are at most as many as allowed, each has a part, no
  -- part is `.` or `..` or has a NUL, each is short and shallow enough, and each is below every later
  -- one by its UTF-8, so that no route comes twice.
  pub check_routes-AreOrdered :
      (rs : List Text) {u : Unit {0}}
      → check_routes 0 none rs ≡ ok u
      → (length rs ≤ limits.max_entries) × All IsRoute rs × AreOrdered rs
  check_routes-AreOrdered rs h =
      let (a, b, c, _) = checked 0 none rs (omega arith) h in (omega (arith, a), b, c)
