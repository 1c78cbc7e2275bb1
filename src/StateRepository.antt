-- ===== src/StateRepository.antt =====
-- src/persistence/state_repository.ts: the selected publication and the policy of each cache, and
-- the quarantined origins. `JSON.stringify` is a parameter, and so is `decode`: `JSON.parse` with the
-- test of the shape of its value.
pub mod Ranks
pub mod Newest
pub mod Downgrade
use nixstr_cache.Prelude.{
  ℕ, ◌≡◌, Bool, true, false, not, ◌&&◌, ◌||◌, Option, none, some, List, [], ◌∷◌, ltb, ◌==◌,
  if◌then◌else◌, is_some, any, Text, txt, text_lt, lookup, insert, remove,
}
use nixstr_cache.SourcePlan.{is_empty}
use nixstr_cache.Publication.{RawPublication, Validated, NixKey, is_tag, cache_identity}

-- A row of `identity_state`.
pub record Row : Type 0 where
  pub event_json : Option Text
  pub created_at : Option ℕ
  pub event_id : Option Text
  pub signed_history : Bool
  pub unsigned_consent : Bool

-- The two tables, by their primary keys.
pub record State : Type 0 where
  pub identities : List (Text × Row)
  pub quarantined : List (Text × (Text × ℕ))

-- `StoredSelection`.
pub record Selection : Type 0 where
  pub identity : Text
  pub event : RawPublication
  pub created_at : ℕ
  pub event_id : Text
  pub signed : Bool

-- `AcceptanceResult`, and the errors: of the commit, and of the stored text.
pub data Acceptance : Type 0 where
  accepted : Option Selection → Acceptance
  stale downgrade commit_failed corrupt : Acceptance

-- The result of `loadSelection`.
pub data Loaded : Type 0 where
  nothing bad_shape : Loaded
  loaded : Selection → Loaded

unfoldable pub is_signed : List NixKey → Bool
is_signed [] = false
is_signed (_ ∷ _) = true

-- `row?.signed_history === 1 && !signed && row.unsigned_consent !== 1`.
unfoldable pub needs_consent : Bool → Option Row → Bool
needs_consent signed none = false
needs_consent signed (some r) = r.signed_history && not signed && not r.unsigned_consent

unfoldable pub newer : ℕ → Text → ℕ → Text → Bool
newer created_at id created_at' id' =
    ltb created_at' created_at || (created_at == created_at' && text_lt id id')

-- The time and the id that a publication has to beat.
unfoldable pub rank_of : Option Row → Option (ℕ × Text)
rank_of none = none
rank_of (some r) = elim r.created_at [
  | none ↦ none
  | some t ↦ elim r.event_id [ none ↦ none | some id ↦ if is_empty id then none else some (t, id) ]
]

unfoldable pub is_stale : RawPublication → Option Row → Bool
unfolding newer rank_of
is_stale event current = elim (rank_of current) [
  | none ↦ false
  | some (t, id) ↦ not (newer event.created_at event.id t id)
]

abbrev pub history_of : Option Row → Bool
history_of none = false
history_of (some r) = r.signed_history

abbrev pub consent_of : Option Row → Bool
consent_of none = false
consent_of (some r) = r.unsigned_consent

-- `setUnsignedConsent`.
unfoldable pub set_unsigned_consent : Text → Bool → State → State
set_unsigned_consent identity allowed s = record s {
  identities =
      insert identity
        (elim (lookup identity s.identities) [
          | none ↦ record {
            event_json = none;
            created_at = none;
            event_id = none;
            signed_history = false;
            unsigned_consent = allowed;
          }
          | some r ↦ record r { unsigned_consent = allowed }
        ])
        s.identities;
}

-- `clearCorruptSelection`.
unfoldable pub clear_corrupt_selection : Text → State → State
clear_corrupt_selection identity s = elim (lookup identity s.identities) [
  | none ↦ s
  | some r ↦ record s {
    identities =
        insert identity (record r { event_json = none; created_at = none; event_id = none })
          s.identities;
  }
]

-- `loadPolicy`: the signed history and the consent.
unfoldable pub load_policy : Text → State → Bool × Bool
load_policy identity s =
    (history_of (lookup identity s.identities), consent_of (lookup identity s.identities))

-- `quarantine`, `releaseQuarantine` and `isQuarantined`.
unfoldable pub quarantine : Text → Text → ℕ → State → State
quarantine origin reason at s = record s { quarantined = insert origin (reason, at) s.quarantined }

unfoldable pub release_quarantine : Text → State → State
release_quarantine origin s = record s { quarantined = remove origin s.quarantined }

unfoldable pub is_quarantined : Text → State → Bool
is_quarantined origin s = is_some (lookup origin s.quarantined)

module _ (stringify : RawPublication → Text) (decode : Text → Option RawPublication) where
  -- The row that the upsert of `accept` leaves.
  unfoldable pub accepted_row : Validated → Option Row → Row
  unfolding is_signed
  accepted_row v current = record {
    event_json = some (stringify (v.event));
    created_at = some (v.event).created_at;
    event_id = some (v.event).id;
    signed_history = history_of current || is_signed v.nix_keys;
    unsigned_consent = consent_of current;
  }

  -- `loadSelection` of the row.
  unfoldable pub selection_of : Text → Option Row → Loaded
  unfolding is_tag
  selection_of identity none = nothing
  selection_of identity (some r) = elim r.event_json [
    | none ↦ nothing
    | some json ↦ elim r.created_at [
      | none ↦ nothing
      | some t ↦ elim r.event_id [
        | none ↦ nothing
        | some id ↦ if is_empty json then nothing else elim (decode json) [
          | none ↦ bad_shape
          | some event ↦ loaded (record {
            identity = identity;
            event = event;
            created_at = t;
            event_id = id;
            signed = any (is_tag (txt "nixSigKey")) event.tags;
          })
        ]
      ]
    ]
  ]

  unfoldable pub load_selection : Text → State → Loaded
  unfolding selection_of
  load_selection identity s = selection_of identity (lookup identity s.identities)

  abbrev pub answer_of : Loaded → Acceptance
  answer_of nothing = accepted none
  answer_of bad_shape = corrupt
  answer_of (loaded selection) = accepted (some selection)

  -- `accept`; `commits` is whether the commit succeeds.
  unfoldable pub accept : Bool → Validated → State → Acceptance × State
  unfolding needs_consent is_stale accepted_row load_selection
  accept commits v s =
      let identity = cache_identity v.identity in
      let current = lookup identity s.identities in
      let next = record s { identities = insert identity (accepted_row v current) s.identities } in
      if needs_consent (is_signed v.nix_keys) current
      then (downgrade, s)
      else if is_stale v.event current
      then (stale, s)
      else if commits
      then (answer_of (load_selection identity next), next)
      else (commit_failed, s)

  -- The loop of `loadSelections`: what it returns, and the tables without the corrupt selections.
  unfoldable pub load_rows : List (Text × Row) → State → List Selection × State
  unfolding selection_of clear_corrupt_selection
  load_rows [] s = ([], s)
  load_rows ((identity, r) ∷ rs) s = elim (load_selection identity s) [
    | nothing ↦ load_rows rs s
    | bad_shape ↦ load_rows rs (clear_corrupt_selection identity s)
    | loaded selection ↦ let rest = load_rows rs s in (selection ∷ rest.0, rest.1)
  ]

  unfoldable pub load_selections : State → List Selection × State
  unfolding load_rows
  load_selections s = load_rows s.identities s
