-- ===== src/Eligibility.antt =====
-- src/write/eligibility.ts: which of the staged store paths are closed, so that they may be committed.
-- The staged blobs and the lower caches are parameters, answers of `lookup` and `lowerHasStorePath`.
pub mod Sets
pub mod Sweeps
pub mod Closure
use nixstr_cache.Prelude.{
  ℕ, zero, suc, ◌+◌, ◌≡◌, Bool, true, false, not, ◌&&◌, ◌||◌, List, [], ◌∷◌, ◌++◌, ltb,
  if◌then◌else◌, any, all, length, Text, text_eq,
}
use nixstr_cache.Prelude.Result.{Result, ok, err, ◌>>=◌, ◌>>◌, ensure}

-- `StagedNarInfo`.
pub record Candidate : Type 0 where
  pub store_path_hash : Text
  pub nar_route : Text
  pub metadata_bytes : ℕ
  pub references : List Text

pub data Error : Type 0 where
  metadata_exceeded : Error
  -- The answer of the loop when its fuel runs out.
  out_of_fuel : Error

-- `Set.has`.
abbrev pub member : Text → List Text → Bool
member h = any (λ x. text_eq x h)

-- The loop that adds up the metadata.
unfoldable pub check_metadata : ℕ → ℕ → List Candidate → Result Error (Unit {0})
check_metadata limit sum [] = ok tt
check_metadata limit sum (c ∷ cs) =
    ensure (not (ltb limit (sum + c.metadata_bytes))) metadata_exceeded
    >> check_metadata limit (sum + c.metadata_bytes) cs

module _ (staged : Text → Bool) (lower : Text → Bool) (committed : List Text) where
  -- A reference that does not keep its candidate back.
  abbrev pub is_present : Text → List Text → Text → Bool
  is_present self admitted r = text_eq r self || member r committed || member r admitted || lower r

  -- Whether the body of the inner loop admits a candidate.
  unfoldable pub admits : List Text → Candidate → Bool
  admits admitted c =
      not (member c.store_path_hash committed || member c.store_path_hash admitted)
      && staged c.nar_route
      && all (is_present c.store_path_hash admitted) c.references

  -- The inner loop: the admitted hashes, in the order of admission.
  unfoldable pub sweep : List Candidate → List Text → List Text
  unfolding admits
  sweep [] admitted = admitted
  sweep (c ∷ cs) admitted =
      sweep cs (if admits admitted c then admitted ++ c.store_path_hash ∷ [] else admitted)

  -- The outer loop, whose `progressed` says that the sweep admitted a candidate.
  unfoldable pub close_over : ℕ → List Candidate → List Text → Result Error (List Text)
  unfolding sweep
  close_over zero cs admitted = err out_of_fuel
  close_over (suc fuel) cs admitted =
      let next = sweep cs admitted in
      let rest = close_over fuel cs next in
      if ltb (length admitted) (length next) then rest else ok next

  -- `#recompute` up to the commit: the hashes that it commits.
  unfoldable pub recompute : ℕ → List Candidate → Result Error (List Text)
  unfolding check_metadata close_over
  recompute max_metadata cs = check_metadata max_metadata 0 cs >> close_over (suc (length cs)) cs []
