-- ===== src/Examples/State.antt =====
-- src/protocol/publication.ts, src/persistence/state_repository.ts and src/write/eligibility.ts at
-- concrete inputs.
use nixstr_cache.Prelude.{
  ℕ, ◌≡◌, ◌≢◌, ◌⊎◌, refl, Bool, true, false, Option, none, some, List, [], ◌∷◌, ◌++◌, All, Any,
  Text, txt, lookup, has_char, text_eq,
}
use nixstr_cache.Prelude.Result.{ok}
use nixstr_cache.Publication
use nixstr_cache.Publication.{
  Platform, RawPublication, Identity, Validated, NixKey, validate, cache_identity,
}
use nixstr_cache.Publication.Accepted.{IsAccepted, validate-IsAccepted}
use nixstr_cache.Publication.CacheName.{cache_identity_faithful}
use nixstr_cache.StateRepository
use nixstr_cache.StateRepository.{Row}
use nixstr_cache.StateRepository.Newest.{
  accept_all, rank_in, IsNewest, IsOffer, accept_all-IsNewest,
}
use nixstr_cache.StateRepository.Downgrade.{
  Offers, accepts, clears, consents, Op, run_ops, Guards, run_ops_guarded,
}
use nixstr_cache.Eligibility.{Candidate, check_metadata, recompute}
use nixstr_cache.Eligibility.Closure.{IsClosure, recompute-IsClosure}
use nixstr_cache.Examples.Protocol.{code, lower, nhash, plain, decoded, atob, btoa}

abbrev platform : Platform
platform = record {
  utf8 = λ s. s;
  atob = atob;
  btoa = btoa;
  lower = lower;
  bech32 = code;
  parse_url = λ s. none;
  verify_event = λ e. some true;
}

-- A default cache without keys.
abbrev raw : RawPublication
raw = record {
  id = txt "e1";
  pubkey = txt "ab";
  created_at = 50;
  kind = 17091;
  tags = (txt "htree" ∷ (txt "htree://" ++ nhash) ∷ []) ∷ [];
  content = [];
  sig = [];
}

abbrev valid : Validated
valid = record {
  event = raw;
  identity = record { kind = 17091; pubkey = txt "ab"; name = none };
  root = plain;
  nix_keys = [];
  blossom_servers = [];
  expires_at = none;
}

validated : validate platform raw 60 ≡ ok valid
unfolding validate Publication.tags_named text_eq nixstr_cache.Prelude.strip
validated = rw decoded refl

validate-IsAccepted_example : IsAccepted platform raw 60 valid
validate-IsAccepted_example = validate-IsAccepted platform raw 60 validated

no_colon : has_char b':' (txt "ab") ≡ false
unfolding has_char
no_colon = refl

cache_identity_faithful_example : valid.identity ≡ valid.identity
cache_identity_faithful_example =
    cache_identity_faithful platform raw raw 60 60 valid valid validated validated no_colon no_colon
      refl

abbrev stringify : RawPublication → Text
stringify e = e.id

abbrev decode : Text → Option RawPublication
decode s = some raw

-- The same publication, with a key.
abbrev offer : Text → ℕ → Validated
offer id created_at = record valid {
  event = record raw { id = id; created_at = created_at };
  nix_keys = record { name = txt "k"; encoded = txt "k"; bytes = [] } ∷ [];
}

abbrev no_rows : StateRepository.State
no_rows = record { identities = []; quarantined = [] }

abbrev offers : List Validated
offers = offer (txt "b") 50 ∷ offer (txt "a") 50 ∷ offer (txt "c") 40 ∷ []

nothing_selected : rank_in (cache_identity valid.identity) no_rows ≡ none
unfolding rank_in StateRepository.rank_of lookup
nothing_selected = refl

offers-IsOffer : All IsOffer offers
unfolding StateRepository.is_signed
offers-IsOffer = ((refl, refl), ((refl, refl), ((refl, refl), tt)))

accept_all-IsNewest_example :
    IsNewest
      (cache_identity valid.identity)
      offers
      (rank_in (cache_identity valid.identity) (accept_all stringify decode offers no_rows))
accept_all-IsNewest_example =
    accept_all-IsNewest stringify decode (cache_identity valid.identity) offers no_rows
      offers-IsOffer nothing_selected

abbrev own : Text
own = txt "17091:ab:"

abbrev signed_row : Row
signed_row = record {
  event_json = some (txt "e0");
  created_at = some 40;
  event_id = some (txt "e0");
  signed_history = true;
  unsigned_consent = false;
}

abbrev signed_state : StateRepository.State
signed_state = record { identities = (own, signed_row) ∷ []; quarantined = [] }

abbrev attempts : List Op
attempts = accepts true valid ∷ consents (txt "j") true ∷ clears own ∷ accepts true valid ∷ []

found_row : lookup own signed_state.identities ≡ some signed_row
unfolding lookup text_eq
found_row = refl

other_cache : txt "j" ≢ own
other_cache e = cc

run_ops_guarded_example :
    Guards stringify
      (λ v. Any (Offers v) attempts)
      (some (txt "e0"))
      own
      (run_ops stringify decode attempts signed_state)
run_ops_guarded_example =
    run_ops_guarded stringify decode own attempts signed_state signed_row
      (tt, (other_cache, (tt, (tt, tt)))) found_row refl refl

-- One candidate cites the other, and a third cites a path that is nowhere.
abbrev candidates : List Candidate
candidates =
    record {
      store_path_hash = txt "a";
      nar_route = [];
      metadata_bytes = 1;
      references = txt "b" ∷ [];
    }
    ∷ record { store_path_hash = txt "b"; nar_route = []; metadata_bytes = 1; references = [] }
    ∷ record {
      store_path_hash = txt "c";
      nar_route = [];
      metadata_bytes = 1;
      references = txt "z" ∷ [];
    }
    ∷ []

abbrev staged : Text → Bool
staged r = true

abbrev lower_has : Text → Bool
lower_has r = false

metadata_fits : check_metadata 10 0 candidates ≡ ok tt
unfolding check_metadata
metadata_fits = refl

recompute-IsClosure_example :
    (a : List Text) × (recompute staged lower_has [] 10 candidates ≡ ok a)
    × IsClosure staged lower_has [] candidates a
recompute-IsClosure_example = recompute-IsClosure staged lower_has [] 10 candidates metadata_fits
