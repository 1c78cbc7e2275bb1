-- ===== src/SourcePlan.antt =====
-- src/blossom/source_plan.ts: the ordered list of servers that a blob may be fetched from. The platform's
-- `URL` is a parameter: its parser, and the text of a URL whose path is replaced.
pub mod Laws
use nixstr_cache.Prelude.{
  ℕ, ◌≡◌, Bool, true, false, not, ◌&&◌, ◌||◌, Option, none, some, List, [], ◌∷◌, ◌++◌, map, ◌==◌,
  leb, if◌then◌else◌, length, any, Text, txt, text_eq, drop_last, ends_with,
}

-- The parts of a URL that the source reads.
pub record Url : Type 0 where
  pub protocol : Text
  pub username : Text
  pub password : Text
  pub search : Text
  pub hash : Text
  pub pathname : Text
  pub origin : Text

-- `SourceTrust`.
pub data Trust : Type 0 where
  publisher configured : Trust

-- `SourceCandidate`, whose role is always that of a publisher.
pub record Candidate : Type 0 where
  pub base_url : Text
  pub origin : Text
  pub trust : Trust

-- `SourcePlanInput`.
pub record Input : Type 0 where
  pub extras : List Text
  pub event : List Text
  pub bud03 : List Text

abbrev pub is_configured : Trust → Bool
is_configured publisher = false
is_configured configured = true

abbrev pub is_empty : Text → Bool
is_empty [] = true
is_empty (_ ∷ _) = false

-- `replace(/\/+$/, "")`.
unfoldable pub trim_slashes : Text → Text
trim_slashes [] = []
trim_slashes (c ∷ s) = let t = trim_slashes s in if c == b'/' && is_empty t then [] else c ∷ t

-- `replace(/\/$/, "")`.
unfoldable pub trim_slash : Text → Text
trim_slash s = if ends_with b'/' s then drop_last s else s

unfoldable pub is_http : Url → Bool
is_http u =
    (text_eq u.protocol (txt "http:") || text_eq u.protocol (txt "https:"))
    && is_empty u.username
    && is_empty u.password
    && is_empty u.search
    && is_empty u.hash

unfoldable pub sources : Input → List (Text × Trust)
sources i =
    map (λ v. (v, publisher)) i.event
    ++ (map (λ v. (v, publisher)) i.bud03 ++ map (λ v. (v, configured)) i.extras)

-- What becomes of the entry that a base URL has already.
abbrev pub upgrade : Candidate → Candidate → Candidate
upgrade item old = if is_configured item.trust && not (is_configured old.trust) then item else old

-- The rest of a round of the loop, for a candidate that is kept: `seen` is the search for its base
-- URL in the result.
unfoldable pub place : Candidate → List Candidate → List Candidate
place item [] = item ∷ []
place item (c ∷ cs) =
    if text_eq c.base_url item.base_url then upgrade item c ∷ cs else c ∷ place item cs

unfoldable pub place_all : List Candidate → List Candidate → List Candidate
unfolding place
place_all [] result = result
place_all (c ∷ cs) result = place_all cs (place c result)

module _ (parse_url : Text → Option Url) (href_with_path : Url → Text → Text)
    (is_quarantined : Text → Bool) where
  -- `candidate`; `none` is undefined.
  unfoldable pub candidate : Text → Trust → Option Candidate
  unfolding is_http trim_slashes trim_slash
  candidate value trust = elim (parse_url value) [
    | none ↦ none
    | some u ↦
        if is_http u
        then some (record {
          base_url = trim_slash (href_with_path u (trim_slashes u.pathname));
          origin = u.origin;
          trust = trust;
        })
        else none
  ]

  -- The candidates that the loop does not skip.
  unfoldable pub kept : List (Text × Trust) → List Candidate
  unfolding candidate
  kept [] = []
  kept ((v, t) ∷ vs) = elim (candidate v t) [
    | none ↦ kept vs
    | some c ↦ if is_quarantined c.origin then kept vs else c ∷ kept vs
  ]

  unfoldable pub build : Input → List Candidate
  unfolding sources kept place_all
  build i = place_all (kept (sources i)) []
