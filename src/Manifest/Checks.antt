-- ===== src/Manifest/Checks.antt =====
-- src/protocol/hashtree.ts: what the loops over the links of a manifest have shown.
use nixstr_cache.Prelude.{
  ◌≡◌, ◌≢◌, ◌⊎◌, inl, inr, refl, subst, true, false, not, ◌&&◌, Option, none, some, List, [], ◌∷◌,
  ◌==◌, is_some, arith, all, All, All-imp, Text, txt, text_eq, text_eq_iff, text_lt_trans,
  text_lt-not_lt, and_cases,
}
use nixstr_cache.Prelude.Result.{ok, >>=-eq-ok, passes, requires, ensure-eq-ok, ok_injective}
use nixstr_cache.Manifest.Value.{Fields, find_field, Codec}
use nixstr_cache.Manifest.{
  LinkType, raw_link, file_link, directory_link, fanout_link, Link, Kind, file, directory, fanout,
  bad_integer, bad_bounds, wrong_fields, unsafe_name, unsorted_names, bad_fanout_link,
}
use nixstr_cache.Manifest.Decode.{uint, exact_keys}
use nixstr_cache.Manifest.Rules.{
  Bounds, is_file_link, check_file, name_or_empty, is_safe_name, byte_lt, below, check_directory,
  as_text, is_fanout_link, check_bounds, check_fanout, check_links,
}
use nixstr_cache.Manifest.Shape.{IsLink, IsPart, IsSafe, IsListing, AreRanges, IsShaped}

pub check_file-IsPart : (ls : List Link) {u : Unit {0}} → check_file ls ≡ ok u → All IsPart ls
unfolding check_file is_file_link
check_file-IsPart ls h = parts ls (ensure-eq-ok _ _ h)
  where
    part :
        (n : Option Text) (t : LinkType) (l : Link)
        → l.name ≡ n
        → l.type ≡ t
        → is_file_link l ≡ true
        → IsPart l
    part none raw_link l e f h = record { nameless = e; type = inl f }
    part none file_link l e f h = record { nameless = e; type = inr f }
    part none directory_link l e f h = ground arith
    part none fanout_link l e f h = ground arith
    part (some n) t l e f h = ground arith

    parts : (ls : List Link) → all is_file_link ls ≡ true → All IsPart ls
    parts [] h = tt
    parts (l ∷ ls) h =
        let (a, b) = and_cases (is_file_link l) (all is_file_link ls) h in
        (part l.name l.type l refl refl a, parts ls b)

text_eq-false : (s t : Text) → text_eq s t ≡ false → s ≢ t
text_eq-false s t h e = let k = (text_eq_iff s t).1 e in cc

is_safe_name-IsSafe : (n : Text) → is_safe_name n ≡ true → IsSafe n
unfolding is_safe_name
is_safe_name-IsSafe [] h = cc
is_safe_name-IsSafe (x ∷ n) h = record {
  not_empty = λ e. cc;
  not_here = text_eq-false _ _ (ground arith);
  not_up = text_eq-false _ _ (ground arith);
  no_slash = ground arith;
  no_nul = ground arith;
}

module _ (c : Codec) where
  below_trans :
      (p : Option Text) (n m : Text)
      → below c p n ≡ true
      → byte_lt c n m ≡ true
      → below c p m ≡ true
  unfolding byte_lt
  below_trans none n m h k = refl
  below_trans (some p) n m h k = text_lt_trans (c.utf8 p) (c.utf8 n) (c.utf8 m) h k

  -- A listing whose names are all above an earlier one.
  check_directory-IsListing :
      (p : Option Text) (ls : List Link) {u : Unit {0}}
      → All (IsLink directory) ls
      → check_directory c p ls ≡ ok u
      → IsListing c ls × All (λ m. below c p (name_or_empty m.name) ≡ true) ls
  unfolding check_directory
  check_directory-IsListing p [] s h = (tt, tt)
  check_directory-IsListing p (l ∷ ls) (s, ss) h =
      let n = name_or_empty l.name in
      let (safe, h1) = passes (is_safe_name n) unsafe_name _ h in
      let (above, h2) = passes (below c p n) unsorted_names _ h1 in
      let (listing, later) = check_directory-IsListing (some n) ls ss h2 in
      (
        (n, named l.name s.named, is_safe_name-IsSafe n safe, later, listing),
        (above, All-imp _ _ (λ m. below_trans p n (name_or_empty m.name) above) ls later),
      )
    where
      named : (o : Option Text) → is_some o ≡ true → o ≡ some (name_or_empty o)
      named none h = cc
      named (some n) h = refl

  -- What a fanout link that passes has, and that its range begins above the one before it.
  check_bounds-ordered :
      (p : Option Text) (fs : Fields) {b : Bounds}
      → check_bounds c p fs ≡ ok b
      → (as_text (find_field (txt "first") fs) ≡ ok (b.first))
        × (as_text (find_field (txt "last") fs) ≡ ok (b.last))
        × (byte_lt c b.last b.first ≡ false)
        × (below c p b.first ≡ true)
  unfolding check_bounds
  check_bounds-ordered p fs h =
      let (_, h1) =
        passes (exact_keys fs (txt "count" ∷ txt "first" ∷ txt "last" ∷ [])) wrong_fields _ h in
      let (n, _, h2) = requires (find_field (txt "count") fs) bad_integer _ h1 in
      let (count, _, h3) = >>=-eq-ok (uint n) _ h2 in
      let (first, e, h4) = >>=-eq-ok (as_text (find_field (txt "first") fs)) _ h3 in
      let (last, f, h5) = >>=-eq-ok (as_text (find_field (txt "last") fs)) _ h4 in
      let (g, h6) =
        passes (not (count == 0) && not (byte_lt c last first) && below c p first) bad_bounds _
          h5 in
      subst
        (λ (b : Bounds).
          (as_text (find_field (txt "first") fs) ≡ ok (b.first))
          × (as_text (find_field (txt "last") fs) ≡ ok (b.last))
          × (byte_lt c b.last b.first ≡ false)
          × (below c p b.first ≡ true))
        (ok_injective h6) (e, f, ground arith, ground arith)

  -- A range that begins above an end, and the ones behind it.
  below-range :
      (p : Option Text) (b : Bounds) (d : Bounds)
      → below c p b.first ≡ true
      → byte_lt c b.last b.first ≡ false
      → byte_lt c b.last d.first ≡ true
      → below c p d.first ≡ true
  unfolding byte_lt
  below-range none b d h g k = refl
  below-range (some p) b d h g k =
      text_lt_trans (c.utf8 p) (c.utf8 b.last) (c.utf8 d.first)
        (text_lt-not_lt (c.utf8 p) (c.utf8 b.first) (c.utf8 b.last) h g) k

  pub is_fanout_link-cases :
      (l : Link)
      → is_fanout_link c l ≡ true
      → (l.name ≡ none) × ((l.type ≡ directory_link) ⊎ (l.type ≡ fanout_link))
  unfolding is_fanout_link
  is_fanout_link-cases l h = cases l.name l.type refl refl h
    where
      cases :
          (n : Option Text) (t : LinkType)
          → l.name ≡ n
          → l.type ≡ t
          → is_fanout_link c l ≡ true
          → (l.name ≡ none) × ((l.type ≡ directory_link) ⊎ (l.type ≡ fanout_link))
      cases none directory_link e f h = (e, inl f)
      cases none fanout_link e f h = (e, inr f)
      cases none raw_link e f h = ground arith
      cases none file_link e f h = ground arith
      cases (some _) t e f h = ground arith

  check_fanout-AreRanges :
      (p : Option Text) (ls : List Link) {u : Unit {0}}
      → check_fanout c p ls ≡ ok u
      → (bs : List Bounds) × AreRanges c ls bs × All (λ d. below c p d.first ≡ true) bs
  unfolding check_fanout
  check_fanout-AreRanges p [] h = ([], tt, tt)
  check_fanout-AreRanges p (l ∷ ls) h =
      let (isf, h1) = passes (is_fanout_link c l) bad_fanout_link _ h in
      let (fs, m, h2) = requires l.metadata bad_fanout_link _ h1 in
      let (b, e, h3) = >>=-eq-ok (check_bounds c p fs) _ h2 in
      let (bs, ranges, above) = check_fanout-AreRanges (some (b.last)) ls h3 in
      let (first, last, ordered, begins) = check_bounds-ordered p fs e in
      let (nameless, type) = is_fanout_link-cases l isf in
      (
        b ∷ bs,
        (
          record {
            nameless = nameless;
            type = type;
            fields = fs;
            metadata = m;
            first = first;
            last = last;
            ordered = ordered;
          },
          above,
          ranges,
        ),
        (begins, All-imp _ _ (λ d. below-range p b d begins ordered) bs above),
      )

  pub check_links-IsShaped :
      (k : Kind) (ls : List Link) {u : Unit {0}}
      → All (IsLink k) ls
      → check_links c k ls ≡ ok u
      → IsShaped c k ls
  unfolding check_links
  check_links-IsShaped file ls d h = check_file-IsPart ls h
  check_links-IsShaped directory ls d h = (check_directory-IsListing none ls d h).0
  check_links-IsShaped fanout ls d h =
      let (bs, ranges, _) = check_fanout-AreRanges none ls h in (bs, ranges)
