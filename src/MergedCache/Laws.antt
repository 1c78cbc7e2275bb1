-- ===== src/MergedCache/Laws.antt =====
-- src/nix/merged_cache.ts: what the merged narinfo is.
use nixstr_cache.Prelude.{
  ℕ, ◌≡◌, ◌≢◌, refl, ap, subst, ◌∙◌, sym, Bool, true, false, Option, List, [], ◌∷◌, ◌++◌, arith,
  leb, leb-false, if◌then◌else◌, Bool-cases, length, All, All-append, keep, Text, inl, inr,
}
use nixstr_cache.Prelude.Result.{Result, ok, err, ensure, require, >>=-eq-ok, ok_injective}
use nixstr_cache.NarInfo
use nixstr_cache.NarInfo.{Signature, NarInfo, parse}
use nixstr_cache.NarInfo.Ops.{append_signatures, differing_fields}
use nixstr_cache.NarInfo.Fields.{Agrees, differing_fields-Agrees}
use nixstr_cache.NarInfo.Lines.{IsSigLine}
use nixstr_cache.NarInfo.Merge.{parse-All_sig, parse-append_signatures}
use nixstr_cache.MergedCache.{
  Error, Resolution, absent, broken, found, Found, Merged, lift, bounded_bytes, read_body,
  collect_one, collect, conflicts, other_signatures, publications, merge, resolve_merged,
  budget_exceeded, omitted_body, not_utf8,
}

-- The test that a publication is not verified to be absent.
abbrev pub present : Resolution → Bool
present absent = false
present broken = true
present (found _ _) = true

empty_of : {A : Type 0} (xs : List A) → leb 1 (length xs) ≡ false → xs ≡ []
empty_of [] h = refl
empty_of (x ∷ xs) h = absurd (omega (arith, leb-false 1 _ h))

counted_none : (a b : NarInfo) → leb 1 (length (differing_fields a b)) ≡ false → Agrees a b
counted_none a b h = differing_fields-Agrees a b (empty_of (differing_fields a b) h)

-- Without a conflict, every record agrees with the first.
conflicts_none :
    {P : Type 0} (identity event_id : P → Text) (first : Found P) (is : List (Found P))
    → conflicts identity event_id first is ≡ []
    → All (λ (i : Found P). Agrees first.narinfo i.narinfo) is
unfolding conflicts
conflicts_none identity event_id first [] h = tt
conflicts_none identity event_id first (i ∷ is) h =
    ground (arith, counted_none first.narinfo i.narinfo, conflicts_none identity event_id first is)

module _ (utf8 : List ℕ → Option Text) (atob : Text → Option (List ℕ)) (btoa : List ℕ → Text)
    (limit : ℕ) where
  -- A record that was parsed from some text.
  abbrev FromText : NarInfo → Type 0
  FromText n = (t : Text) × (parse atob btoa t ≡ ok n)

  read_body-FromText :
      (size : ℕ) (body : Option (List (List ℕ))) (n : NarInfo)
      → read_body utf8 atob btoa limit size body ≡ ok n
      → FromText n
  unfolding read_body
  read_body-FromText size body n h =
      let (_, _, h1) = >>=-eq-ok (ensure (leb size limit) budget_exceeded) _ h in
      let (chunks, _, h2) = >>=-eq-ok (require body omitted_body) _ h1 in
      let (bytes, _, h3) = >>=-eq-ok (bounded_bytes limit 0 chunks) _ h2 in
      let (t, _, h4) = >>=-eq-ok (require (utf8 bytes) not_utf8) _ h3 in
      (t, lift_ok (parse atob btoa t) h4)
    where
      lift_ok : (r : Result NarInfo.Error NarInfo) → lift r ≡ ok n → r ≡ ok n
      lift_ok (ok a) e = ground arith
      lift_ok (err x) e = cc

  collect_one_lem :
      {P : Type 0} (r : Resolution) (p : P) (later : Result Error (List (Found P)))
      (items : List (Found P))
      → collect_one utf8 atob btoa limit r p later ≡ ok items
      → (rest : List (Found P)) × (later ≡ ok rest)
        × (publications items ≡ (if present r then p ∷ publications rest else publications rest))
        × (All (λ (i : Found P). FromText i.narinfo) rest
            → All (λ (i : Found P). FromText i.narinfo) items)
  unfolding collect_one publications
  collect_one_lem absent p later items h = (items, h, refl, λ a. a)
  collect_one_lem broken p later items h = cc
  collect_one_lem {P} (found size body) p later items h =
      let (n, read, h1) = >>=-eq-ok (read_body utf8 atob btoa limit size body) _ h in
      let (rest, e, last) = >>=-eq-ok later _ h1 in
      let same : record { publication = p; narinfo = n } ∷ rest ≡ items = ok_injective last in
      (
        rest,
        e,
        ap publications (sym same),
        λ a.
            subst (All (λ (i : Found P). FromText i.narinfo)) same
              (read_body-FromText size body n read, a),
      )

  module _ {P : Type 0} (resolve : P → Resolution) where
    -- What the loop collects: the publications that are not absent, each with a parsed record.
    collect_lem :
        (ps : List P) (items : List (Found P))
        → collect utf8 atob btoa limit resolve ps ≡ ok items
        → (publications items ≡ keep (λ p. present (resolve p)) ps)
          × All (λ (i : Found P). FromText i.narinfo) items
    unfolding collect publications
    collect_lem [] items h = (
      ap publications (sym (ok_injective h)),
      subst (All (λ (i : Found P). FromText i.narinfo)) (ok_injective h) tt,
    )
    collect_lem (p ∷ ps) items h =
        let (rest, e, named, parsed) =
          collect_one_lem (resolve p) p (collect utf8 atob btoa limit resolve ps) items h in
        let (later, all) = collect_lem ps rest e in
        (named ∙ ap (λ t. if present (resolve p) then p ∷ t else t) later, parsed all)

    signatures-All :
        (items : List (Found P))
        → All (λ (i : Found P). FromText i.narinfo) items
        → All (IsSigLine atob btoa) (other_signatures items)
    unfolding other_signatures
    signatures-All [] h = tt
    signatures-All (i ∷ is) ((t, e), h) =
        All-append _ i.narinfo.signatures (other_signatures is)
          (parse-All_sig atob btoa t i.narinfo e) (signatures-All is h)

    -- What a merged result is, of the publications of a snapshot: `others` are the publications
    -- behind the winner, with the records that were read of them.
    pub record Describes (ps : List P) (m : Merged P) : Type 0 where
      pub others : List (Found P)
      pub collected :
          collect utf8 atob btoa limit resolve ps
          ≡ ok (record { publication = m.winner; narinfo = m.narinfo } ∷ others)
      pub providers : m.providers ≡ keep (λ p. present (resolve p)) ps
      pub first : m.providers ≡ m.winner ∷ publications others
      pub reads :
          parse atob btoa m.text
          ≡ ok (record (m.narinfo) {
            signatures =
                m.narinfo.signatures
                ++ (if leb 1 (length m.emitted) then [] else other_signatures others);
            raw_text = m.text;
          })
      pub on_conflict : m.emitted ≢ [] → m.text ≡ m.narinfo.raw_text
      pub agreeing : m.emitted ≡ [] → All (λ (i : Found P). Agrees m.narinfo i.narinfo) others

    merge_lem :
        (identity event_id : P → Text) (ps : List P) (first : Found P) (rest : List (Found P))
        → collect utf8 atob btoa limit resolve ps ≡ ok (first ∷ rest)
        → publications (first ∷ rest) ≡ keep (λ p. present (resolve p)) ps
        → FromText first.narinfo
        → All (λ (i : Found P). FromText i.narinfo) rest
        → (m : Merged P) → merge identity event_id (first ∷ rest) ≡ ok m
        → Describes ps m
    unfolding merge publications append_signatures
    merge_lem identity event_id ps first rest e named (t, served) parsed m h =
        subst (Describes ps) (ok_injective h)
          (elim (Bool-cases (leb 1 (length (conflicts identity event_id first rest)))) [
            | inl clash ↦ record {
              others = rest;
              collected = e;
              providers = named;
              first = refl;
              reads = rw clash (parse-append_signatures atob btoa t first.narinfo [] served tt);
              on_conflict = λ _. rw clash;
              agreeing = conflicts_none identity event_id first rest;
            }
            | inr agreed ↦ record {
              others = rest;
              collected = e;
              providers = named;
              first = refl;
              reads = rw agreed (
                  parse-append_signatures atob btoa t first.narinfo (other_signatures rest) served
                    (signatures-All rest parsed));
              on_conflict = λ ne. absurd (ne (empty_of _ agreed));
              agreeing = conflicts_none identity event_id first rest;
            }
          ])

    -- What `resolve_merged` returns: the providers are the publications that are not absent, in
    -- their order, and the winner is the first. If no conflict was reported, the records of the
    -- others have the values of the winner's in every semantic field, and the text parses to the
    -- winner's record with their signatures behind its own. If one was, the text is the winner's as it was
    -- served, and parses to the winner's record.
    pub resolve_merged-Describes :
        (identity event_id : P → Text) (ps : List P) (m : Merged P)
        → resolve_merged utf8 atob btoa limit identity event_id resolve ps ≡ ok m
        → Describes ps m
    unfolding resolve_merged merge
    resolve_merged-Describes identity event_id ps m h =
        let (items, e, last) = >>=-eq-ok (collect utf8 atob btoa limit resolve ps) _ h in
        let (named, parsed) = collect_lem ps items e in go items e named parsed last
      where
        go :
            (items : List (Found P))
            → collect utf8 atob btoa limit resolve ps ≡ ok items
            → publications items ≡ keep (λ p. present (resolve p)) ps
            → All (λ (i : Found P). FromText i.narinfo) items
            → merge identity event_id items ≡ ok m
            → Describes ps m
        go [] e named parsed last = cc
        go (first ∷ rest) e named (served, parsed) last =
            merge_lem identity event_id ps first rest e named served parsed m last
