-- ===== src/Examples/Caches.antt =====
-- src/nix/merged_cache.ts and the budget of src/hashtree/reader.ts at concrete inputs.
use nixstr_cache.Prelude.{
  ℕ, zero, suc, ◌+◌, ◌≡◌, ◌≤◌, ◌<◌, refl, arith, Bool, true, false, Option, none, some, List, [],
  ◌∷◌, ◌++◌, ap, length, leb, if◌then◌else◌, All, Text, txt, text_eq, join,
}
use nixstr_cache.Prelude.Result.{ok}
use nixstr_cache.MergedCache.{Resolution, absent, found, Merged, resolve_merged}
use nixstr_cache.MergedCache.Laws.{Describes, resolve_merged-Describes}
use nixstr_cache.Registry.{normalized}
use nixstr_cache.Registry.Winner
use nixstr_cache.Registry.Winner.{IsBounded, set-IsBounded}
use nixstr_cache.Registry.Winner.Served.{
  Call as RouteCall, get_at, set_at, run as run_routes, Spares, get-run-set,
}
use nixstr_cache.Registry.Signer
use nixstr_cache.Registry.Signer.Leases.{
  sets, takes, closes, Call, run, accounted, total_brought, total_handed_out, in_entries,
  in_released, run-accounted, close-releases,
}
use nixstr_cache.Budget.{Limits, Budget, create}
use nixstr_cache.Budget.Bounds
use nixstr_cache.Budget.Bounds.{
  IsWithin, Spends, links, visits, releases, step, run-create-IsWithin, step_late,
}
use nixstr_cache.Examples.Protocol.{atob, btoa, sample_text, sample, parsed}

-- Two publications, of which the first does not have the path.
abbrev resolve : ℕ → Resolution
resolve zero = absent
resolve (suc _) = found 3 (some (sample_text ∷ []))

abbrev utf8 : List ℕ → Option Text
utf8 bytes = some bytes

abbrev name : ℕ → Text
name n = n ∷ []

abbrev merged : Merged ℕ
merged = record {
  winner = 1;
  providers = 1 ∷ [];
  narinfo = sample;
  text = sample_text;
  emitted = [];
}

resolved : resolve_merged utf8 atob btoa 1000 name name resolve (0 ∷ 1 ∷ []) ≡ ok merged
unfolding resolve_merged nixstr_cache.MergedCache.collect nixstr_cache.MergedCache.collect_one
    nixstr_cache.MergedCache.read_body nixstr_cache.MergedCache.bounded_bytes
    nixstr_cache.MergedCache.merge nixstr_cache.MergedCache.conflicts
    nixstr_cache.MergedCache.publications nixstr_cache.MergedCache.other_signatures
    nixstr_cache.NarInfo.Ops.append_signatures join
resolved = rw parsed refl

resolve_merged-Describes_example : Describes utf8 atob btoa 1000 resolve (0 ∷ 1 ∷ []) merged
resolve_merged-Describes_example =
    resolve_merged-Describes utf8 atob btoa 1000 resolve name name (0 ∷ 1 ∷ []) merged resolved

abbrev route : Text
route = txt "nar/x"

abbrev empty_routes : Winner.Registry ℕ
empty_routes = record { max_entries = 2; ttl = 10; entries = [] }

abbrev one_route : Winner.Registry ℕ
one_route = record {
  max_entries = 2;
  ttl = 10;
  entries = (route, record { value = 7; expires_at = 15 }) ∷ [];
}

set_once : Winner.set 5 route 7 empty_routes ≡ some one_route
unfolding Winner.set normalized nixstr_cache.Prelude.strip nixstr_cache.Prelude.split
    nixstr_cache.Prelude.split_from nixstr_cache.Prelude.text_eq nixstr_cache.Prelude.insert
    nixstr_cache.Prelude.remove
set_once = refl

set-IsBounded_example : IsBounded one_route
set-IsBounded_example =
    set-IsBounded 5 route 7 empty_routes one_route
      (record { positive = omega arith; within = omega arith }) set_once

same_route : normalized (txt "/nar/x") ≡ normalized route
unfolding normalized
same_route = refl

-- Another route is asked for and set in between.
abbrev between : List (RouteCall ℕ)
between = get_at 6 (txt "/nar/y") ∷ set_at 7 (txt "/nar/y") 8 ∷ get_at 8 route ∷ []

other_route : ¬ (normalized (txt "/nar/y") ≡ normalized route)
unfolding normalized nixstr_cache.Prelude.strip nixstr_cache.Prelude.split
    nixstr_cache.Prelude.split_from nixstr_cache.Prelude.text_eq
other_route h =
    let same : true ≡ false =
      ap (λ o. elim o [ none ↦ true | some t ↦ text_eq t (txt "nar/y") ]) h in
    ground arith

between-Spares : Spares route 15 between
between-Spares = (omega arith, (omega arith, other_route, (omega arith, tt)))

get-run-set_example :
    (Winner.get 12 (txt "/nar/x") (run_routes between one_route)).0
    ≡ (if leb 15 12 then none else some 7)
get-run-set_example =
    get-run-set 5 12 route (txt "/nar/x") 7 between empty_routes one_route set_once same_route
      between-Spares (omega arith)

abbrev no_leases : Signer.Registry
no_leases = record {
  max_entries = 1;
  ttl = 10;
  entries = [];
  released = [];
  timer = none;
  closed = false;
}

abbrev history : List Call
history =
    sets 1 route 4 ∷ sets 2 (txt "nar/y") 5 ∷ takes 3 route ∷ takes 4 (txt "nar/y") ∷ closes ∷ []

run-accounted_example :
    accounted 4 (run history no_leases) + total_handed_out 4 history no_leases
    ≡ accounted 4 no_leases + total_brought 4 history no_leases
run-accounted_example = run-accounted 4 history no_leases

abbrev one_lease : Signer.Registry
one_lease = record no_leases { entries = (route, record { value = 4; expires_at = 11 }) ∷ [] }

close-releases_example :
    ((Signer.close one_lease).entries ≡ [])
    × (in_released 4 (Signer.close one_lease).released
        ≡ in_released 4 one_lease.released + in_entries 4 one_lease.entries)
close-releases_example = close-releases 4 one_lease refl

abbrev limits : Limits
limits = record {
  max_depth = 3;
  max_links = 3;
  max_unique_nodes = 1;
  max_decoded_bytes = 3;
  max_attempts = 3;
  max_redirects = 3;
  max_concurrent = 3;
  max_blob_transfer_bytes = 3;
  max_transferred_bytes = 3;
  max_output_bytes = 3;
  deadline = 100;
}

abbrev fresh : Budget
fresh = record {
  limits = limits;
  links = 0;
  nodes = [];
  decoded = 0;
  attempts = 0;
  redirects = 0;
  concurrent = 0;
  transferred = 0;
  output = 0;
}

created : create limits ≡ some fresh
unfolding create
created = refl

abbrev spending : List (ℕ × Bounds.Call)
spending = (1, links 2) ∷ (2, links 2) ∷ (3, visits (txt "a")) ∷ (200, links 1) ∷ []

run-create-IsWithin_example :
    IsWithin (Bounds.run spending fresh) × Spends fresh (Bounds.run spending fresh)
run-create-IsWithin_example = run-create-IsWithin limits fresh spending created

step_late_example :
    step 200 (links 1) fresh ≡ record fresh { concurrent = (step 200 (links 1) fresh).concurrent }
step_late_example = step_late 200 (links 1) fresh (omega arith)
