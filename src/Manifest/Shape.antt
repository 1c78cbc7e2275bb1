-- ===== src/Manifest/Shape.antt =====
-- src/protocol/hashtree.ts: what a manifest that passes the validation looks like.
use nixstr_cache.Prelude.{
  ℕ, ◌≤◌, ◌≡◌, ◌≢◌, ◌⊎◌, true, false, Option, none, some, List, [], ◌∷◌, is_some, length, All, Text,
  txt, has_char,
}
use nixstr_cache.Prelude.Result.{ok}
use nixstr_cache.Manifest.Value.{Fields, find_field, Codec}
use nixstr_cache.Manifest.{
  raw_link, file_link, directory_link, fanout_link, Link, Kind, file, directory, fanout, max_safe,
}
use nixstr_cache.Manifest.Rules.{Bounds, name_or_empty, byte_lt, as_text}

-- Every link: hashes of 32 bytes, a size that a JavaScript number holds, and a name in a directory.
abbrev pub KeyFits : Option (List ℕ) → Type 0
KeyFits none = Unit {0}
KeyFits (some k) = length k ≡ 32

abbrev pub NamedIn : Kind → Option Text → Type 0
NamedIn directory n = is_some n ≡ true
NamedIn file n = Unit {0}
NamedIn fanout n = Unit {0}

pub record IsLink (k : Kind) (l : Link) : Type 0 where
  pub named : NamedIn k l.name
  pub hash : length l.hash ≡ 32
  pub key : KeyFits l.key
  pub size : l.size ≤ max_safe

-- A link of a file manifest.
pub record IsPart (l : Link) : Type 0 where
  pub nameless : l.name ≡ none
  pub type : (l.type ≡ raw_link) ⊎ (l.type ≡ file_link)

pub record IsSafe (n : Text) : Type 0 where
  pub not_empty : n ≢ []
  pub not_here : n ≢ txt "."
  pub not_up : n ≢ txt ".."
  pub no_slash : has_char b'/' n ≡ false
  pub no_nul : has_char 0 n ≡ false

-- A link of a fanout manifest and the bounds that it carries.
pub record IsFan (c : Codec) (l : Link) (b : Bounds) : Type 0 where
  pub nameless : l.name ≡ none
  pub type : (l.type ≡ directory_link) ⊎ (l.type ≡ fanout_link)
  pub fields : Fields
  pub metadata : l.metadata ≡ some fields
  pub first : as_text (find_field (txt "first") fields) ≡ ok (b.first)
  pub last : as_text (find_field (txt "last") fields) ≡ ok (b.last)
  pub ordered : byte_lt c b.last b.first ≡ false

-- Every name is safe and below each later one.
abbrev pub IsListing : Codec → List Link → Type 0
IsListing c [] = Unit {0}
IsListing c (l ∷ ls) =
    (n : Text) × (l.name ≡ some n)
    × IsSafe n
    × All (λ m. byte_lt c n (name_or_empty m.name) ≡ true) ls
    × IsListing c ls

-- The ranges lie behind each other: each ends before every later one begins.
abbrev pub AreRanges : Codec → List Link → List Bounds → Type 0
AreRanges c [] [] = Unit {0}
AreRanges c [] (_ ∷ _) = ⊥
AreRanges c (_ ∷ _) [] = ⊥
AreRanges c (l ∷ ls) (b ∷ bs) =
    IsFan c l b × All (λ d. byte_lt c b.last d.first ≡ true) bs × AreRanges c ls bs

abbrev pub IsShaped : Codec → Kind → List Link → Type 0
IsShaped c file ls = All IsPart ls
IsShaped c directory ls = IsListing c ls
IsShaped c fanout ls = (bs : List Bounds) × AreRanges c ls bs
