-- ===== src/MergedCache.antt =====
-- src/nix/merged_cache.ts, `resolveMergedNarInfo`: one narinfo from the publications of a snapshot. The
-- path resolver, the UTF-8 decoder and the base64 functions are parameters.
pub mod Laws
use nixstr_cache.Prelude.{
  ℕ, ◌+◌, ◌-◌, ◌≡◌, Bool, true, false, not, ◌&&◌, Option, none, some, List, [], ◌∷◌, ◌++◌, map, ltb,
  leb, if◌then◌else◌, length, keep, Text,
}
use nixstr_cache.Prelude.Result.{Result, ok, err, ◌>>=◌, ◌>>◌, ensure, require}
use nixstr_cache.NarInfo
use nixstr_cache.NarInfo.{Signature, NarInfo, parse}
use nixstr_cache.NarInfo.Ops.{
  Field, store_path, url, compression, file_hash, file_size, nar_hash, nar_size, references,
  deriver, system, ca, differing_fields, append_signatures,
}

pub data Error : Type 0 where
  budget_exceeded omitted_body not_utf8 resolver_failed verified_absent : Error
  bad_narinfo : NarInfo.Error → Error

-- What the resolver answers: a verified absence, another error, or the size of the file and the
-- chunks of its body.
pub data Resolution : Type 0 where
  absent broken : Resolution
  found : ℕ → Option (List (List ℕ)) → Resolution

-- `NarInfoConflictDiagnostic`, less its code and the hash of the store path.
pub record Conflict : Type 0 where
  pub winner_identity : Text
  pub winner_event : Text
  pub loser_identity : Text
  pub loser_event : Text
  pub fields : List Field

-- The loop of `boundedText`: the bytes of the chunks, if they stay within the limit.
unfoldable pub bounded_bytes : ℕ → ℕ → List (List ℕ) → Result Error (List ℕ)
bounded_bytes limit total [] = ok []
bounded_bytes limit total (c ∷ cs) =
    ensure (leb (length c) (limit - total)) budget_exceeded
    >> (bounded_bytes limit (total + length c) cs >>= (λ rest. ok (c ++ rest)))

abbrev pub lift : {A : Type 0} → Result NarInfo.Error A → Result Error A
lift (ok a) = ok a
lift (err e) = err (bad_narinfo e)

-- A publication with the narinfo that it serves.
pub record Found (P : Type 0) : Type 0 where
  pub publication : P
  pub narinfo : NarInfo

-- `MergedNarInfoResult`, with the diagnostics that were emitted.
pub record Merged (P : Type 0) : Type 0 where
  pub winner : P
  pub providers : List P
  pub narinfo : NarInfo
  pub text : Text
  pub emitted : List Conflict

-- The place of a field's name among the sorted names.
unfoldable pub name_rank : Field → ℕ
name_rank ca = 0
name_rank compression = 1
name_rank deriver = 2
name_rank file_hash = 3
name_rank file_size = 4
name_rank nar_hash = 5
name_rank nar_size = 6
name_rank references = 7
name_rank store_path = 8
name_rank system = 9
name_rank url = 10

unfoldable pub insert_field : Field → List Field → List Field
unfolding name_rank
insert_field f [] = f ∷ []
insert_field f (g ∷ gs) =
    if leb (name_rank f) (name_rank g) then f ∷ g ∷ gs else g ∷ insert_field f gs

-- `[...fields].sort()`.
unfoldable pub sort_fields : List Field → List Field
unfolding insert_field
sort_fields [] = []
sort_fields (f ∷ fs) = insert_field f (sort_fields fs)

-- The providers of the list, and the signatures of its records.
unfoldable pub publications : {P : Type 0} → List (Found P) → List P
publications [] = []
publications (i ∷ is) = i.publication ∷ publications is

unfoldable pub other_signatures : {P : Type 0} → List (Found P) → List Signature
other_signatures [] = []
other_signatures (i ∷ is) = i.narinfo.signatures ++ other_signatures is

module _ {P : Type 0} (identity event_id : P → Text) where
  unfoldable pub conflict_of : Found P → Found P → Conflict
  unfolding sort_fields
  conflict_of first item = record {
    winner_identity = identity first.publication;
    winner_event = event_id first.publication;
    loser_identity = identity item.publication;
    loser_event = event_id item.publication;
    fields = sort_fields (differing_fields first.narinfo item.narinfo);
  }

  unfoldable pub conflicts : Found P → List (Found P) → List Conflict
  unfolding conflict_of
  conflicts first [] = []
  conflicts first (i ∷ is) =
      if leb 1 (length (differing_fields first.narinfo i.narinfo))
      then conflict_of first i ∷ conflicts first is
      else conflicts first is

  -- Past the loop over the snapshot.
  unfoldable pub merge : List (Found P) → Result Error (Merged P)
  unfolding conflicts other_signatures publications
  merge [] = err verified_absent
  merge (first ∷ rest) =
      let emitted = conflicts first rest in
      ok (record {
        winner = first.publication;
        providers = publications (first ∷ rest);
        narinfo = first.narinfo;
        text =
            if leb 1 (length emitted)
            then first.narinfo.raw_text
            else append_signatures first.narinfo
                (map (λ (s : Signature). s.raw_line) (other_signatures rest));
        emitted = emitted;
      })

module _ (utf8 : List ℕ → Option Text) (atob : Text → Option (List ℕ)) (btoa : List ℕ → Text)
    (limit : ℕ) where
  unfoldable pub read_body : ℕ → Option (List (List ℕ)) → Result Error NarInfo
  unfolding bounded_bytes
  read_body size body = do
    ensure (leb size limit) budget_exceeded
    chunks ← require body omitted_body
    bytes ← bounded_bytes limit 0 chunks
    text ← require (utf8 bytes) not_utf8
    lift (parse atob btoa text)

  -- One round of the loop over the snapshot, before the later rounds.
  unfoldable pub collect_one :
      {P : Type 0} → Resolution → P → Result Error (List (Found P)) → Result Error (List (Found P))
  unfolding read_body
  collect_one absent p later = later
  collect_one broken p later = err resolver_failed
  collect_one (found size body) p later = do
    n ← read_body size body
    rest ← later
    ok (record { publication = p; narinfo = n } ∷ rest)

  unfoldable pub collect : {P : Type 0} → (P → Resolution) → List P → Result Error (List (Found P))
  unfolding collect_one
  collect resolve [] = ok []
  collect resolve (p ∷ ps) = collect_one (resolve p) p (collect resolve ps)

  unfoldable pub resolve_merged :
      {P : Type 0}
      → (identity event_id : P → Text) → (P → Resolution)
      → List P
      → Result Error (Merged P)
  unfolding collect merge
  resolve_merged identity event_id resolve snapshot =
      collect resolve snapshot >>= merge identity event_id
