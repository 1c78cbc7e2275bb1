-- ===== src/Manifest/Encoded.antt =====
-- src/protocol/hashtree.ts: one link, as `encodeManifest` writes it and the decoder reads it.
use nixstr_cache.Prelude.{
  ℕ, ◌≡◌, refl, ◌∙◌, true, false, ◌&&◌, Option, none, some, List, is_some, arith, all, Text, txt,
  text_eq, text_eq_refl, le→leb,
}
use nixstr_cache.Prelude.Result.{ok}
use nixstr_cache.Manifest.Value.{
  Raw, bin, num, object, Fields, end, field, find_field, json_fields, keys_of,
}
use nixstr_cache.Manifest.{
  LinkType, raw_link, file_link, directory_link, fanout_link, Link, Kind, file, directory, fanout,
  type_number, optional, bin_of, object_of, str_of, encode_link,
}
use nixstr_cache.Manifest.Decode.{
  uint, bytes32, perhaps, json_metadata, link_name, link_type, is_allowed, required_keys,
  decode_link,
}
use nixstr_cache.Manifest.Shape.{KeyFits, IsLink}

-- Metadata that JSON can hold.
abbrev pub JsonFits : Option Fields → Type 0
JsonFits none = Unit {0}
JsonFits (some fs) = json_fields fs ≡ true

-- A name where the kind of manifest has names, and none elsewhere.
abbrev pub NameFits : Kind → Option Text → Type 0
NameFits directory n = is_some n ≡ true
NameFits file n = n ≡ none
NameFits fanout n = n ≡ none

find_field-optional :
    (k k' : Text) (o : Option Raw) (fs : Fields)
    → text_eq k' k ≡ false
    → find_field k (optional k' o fs) ≡ find_field k fs
unfolding find_field
find_field-optional k k' none fs h = refl
find_field-optional k k' (some v) fs h = rw h refl

find_field-optional_same :
    (k : Text) (o : Option Raw) (fs : Fields)
    → find_field k fs ≡ none
    → find_field k (optional k o fs) ≡ o
unfolding find_field
find_field-optional_same k none fs h = h
find_field-optional_same k (some v) fs h = rw (text_eq_refl k) refl

link_type-type_number : (t : LinkType) → link_type (num (type_number t)) ≡ ok t
unfolding link_type
link_type-type_number raw_link = refl
link_type-type_number file_link = refl
link_type-type_number directory_link = refl
link_type-type_number fanout_link = refl

perhaps-bin_of : (o : Option (List ℕ)) → KeyFits o → perhaps bytes32 (bin_of o) ≡ ok o
unfolding bytes32
perhaps-bin_of none h = refl
perhaps-bin_of (some b) h = ground arith

perhaps-object_of : (o : Option Fields) → JsonFits o → perhaps json_metadata (object_of o) ≡ ok o
unfolding json_metadata
perhaps-object_of none h = refl
perhaps-object_of (some fs) h = rw h refl

perhaps-str_of : (o : Option Text) → perhaps link_name (str_of o) ≡ ok o
unfolding link_name
perhaps-str_of none = refl
perhaps-str_of (some s) = refl

-- The fields of an encoded link.
abbrev fields_of : Link → Fields
fields_of l = field (txt "h") (bin l.hash) (
    optional (txt "k") (bin_of l.key) (
      optional (txt "m") (object_of l.metadata) (
        optional (txt "n") (str_of l.name)
          (field (txt "s") (num l.size) (field (txt "t") (num (type_number l.type)) end)))))

keys-allowed :
    (k : Kind) (l : Link) → NameFits k l.name → all (is_allowed k) (keys_of (fields_of l)) ≡ true
unfolding is_allowed text_eq
keys-allowed k l h = keys k l.key l.metadata l.name h
  where
    keys :
        (k : Kind) (key : Option (List ℕ)) (m : Option Fields) (n : Option Text)
        → NameFits k n
        → all (is_allowed k) (
            keys_of (
              field (txt "h") (bin l.hash) (
                optional (txt "k") (bin_of key) (
                  optional (txt "m") (object_of m) (
                    optional (txt "n") (str_of n) (
                      field
                        (txt "s")
                        (num l.size)
                        (field (txt "t") (num (type_number l.type)) end)))))))
          ≡ true
    keys file key m (some n) h = cc
    keys fanout key m (some n) h = cc
    keys directory key m none h = cc
    keys directory none none (some n) h = refl
    keys directory none (some _) (some n) h = refl
    keys directory (some _) none (some n) h = refl
    keys directory (some _) (some _) (some n) h = refl
    keys file none none none h = refl
    keys file none (some _) none h = refl
    keys file (some _) none none h = refl
    keys file (some _) (some _) none h = refl
    keys fanout none none none h = refl
    keys fanout none (some _) none h = refl
    keys fanout (some _) none none h = refl
    keys fanout (some _) (some _) none h = refl

-- The lookups in an encoded link.
record Looks (l : Link) (fs : Fields) : Type 0 where
  h : find_field (txt "h") fs ≡ some (bin l.hash)
  k : find_field (txt "k") fs ≡ bin_of l.key
  m : find_field (txt "m") fs ≡ object_of l.metadata
  n : find_field (txt "n") fs ≡ str_of l.name
  s : find_field (txt "s") fs ≡ some (num l.size)
  t : find_field (txt "t") fs ≡ some (num (type_number l.type))

fields_of-Looks : (l : Link) → Looks l (fields_of l)
unfolding find_field text_eq
fields_of-Looks l = record {
  h = refl;
  k = find_field-optional_same (txt "k") (bin_of l.key) _ (
      find_field-optional (txt "k") (txt "m") (object_of l.metadata) _ refl
      ∙ find_field-optional (txt "k") (txt "n") (str_of l.name) _ refl);
  m =
      find_field-optional (txt "m") (txt "k") (bin_of l.key) _ refl
      ∙ find_field-optional_same (txt "m") (object_of l.metadata) _
          (find_field-optional (txt "m") (txt "n") (str_of l.name) _ refl);
  n =
      find_field-optional (txt "n") (txt "k") (bin_of l.key) _ refl
      ∙ find_field-optional (txt "n") (txt "m") (object_of l.metadata) _ refl
      ∙ find_field-optional_same (txt "n") (str_of l.name) _ refl;
  s =
      find_field-optional (txt "s") (txt "k") (bin_of l.key) _ refl
      ∙ find_field-optional (txt "s") (txt "m") (object_of l.metadata) _ refl
      ∙ find_field-optional (txt "s") (txt "n") (str_of l.name) _ refl;
  t =
      find_field-optional (txt "t") (txt "k") (bin_of l.key) _ refl
      ∙ find_field-optional (txt "t") (txt "m") (object_of l.metadata) _ refl
      ∙ find_field-optional (txt "t") (txt "n") (str_of l.name) _ refl;
}

all-there :
    (k : Kind) (l : Link) (fs : Fields)
    → Looks l fs
    → NameFits k l.name
    → all (λ key. is_some (find_field key fs)) (required_keys k) ≡ true
all-there file l fs a b = rw (a.h, a.s, a.t) refl
all-there fanout l fs a b = rw (a.h, a.s, a.t) refl
all-there directory l fs a b = rw (a.h, a.n, a.s, a.t) (is_some-str_of l.name b)
  where
    is_some-str_of : (o : Option Text) → is_some o ≡ true → (is_some (str_of o) && true) ≡ true
    is_some-str_of none h = h
    is_some-str_of (some s) h = refl

decode_link-object :
    (k : Kind) (l : Link) (fs : Fields)
    → Looks l fs
    → IsLink k l
    → JsonFits l.metadata
    → NameFits k l.name
    → all (is_allowed k) (keys_of fs) ≡ true
    → decode_link k (object fs) ≡ ok l
unfolding decode_link bytes32 uint
decode_link-object k l fs a b j n e =
    rw
      (
        e,
        all-there k l fs a n,
        a.t,
        link_type-type_number l.type,
        a.h,
        b.hash,
        a.k,
        perhaps-bin_of l.key b.key,
        a.m,
        perhaps-object_of l.metadata j,
        a.n,
        perhaps-str_of l.name,
        a.s,
        le→leb _ _ b.size,
      )
      refl

pub decode_link-encode_link :
    (k : Kind) (l : Link)
    → IsLink k l
    → JsonFits l.metadata
    → NameFits k l.name
    → decode_link k (encode_link l) ≡ ok l
unfolding encode_link
decode_link-encode_link k l b j n =
    decode_link-object k l (fields_of l) (fields_of-Looks l) b j n (keys-allowed k l n)
