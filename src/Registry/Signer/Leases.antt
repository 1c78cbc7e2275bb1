-- ===== src/Registry/Signer/Leases.antt =====
-- src/nix/merged_cache.ts, `SignerRouteRegistry`: counting the leases under sequences of calls.
use nixstr_cache.Prelude.{
  ℕ, ◌+◌, ◌≡◌, refl, ◌∙◌, Bool, true, false, Option, none, some, List, [], ◌∷◌, ◌++◌, arith, leb,
  ◌==◌, if◌then◌else◌, Option-cases, keep, sum_of, sum_of-append, Text, text_eq_refl, inl, inr,
}
use nixstr_cache.Registry.{Entry, normalized}
use nixstr_cache.Registry.Signer.{
  Registry, find_lease, drop_lease, delete, delete_all, keys, purge, evict, arm, Outcome,
  registered, registry_closed, invalid_route, set_key, set, take_key, take, fire, close,
}

abbrev pub one_if : ℕ → ℕ → ℕ
one_if n lease = if lease == n then 1 else 0

-- How often a lease stands among the entries, and among those that were released.
abbrev pub in_entries : ℕ → List (Text × Entry ℕ) → ℕ
in_entries n = sum_of (λ (e : Text × Entry ℕ). one_if n ((e.1).value))

abbrev pub in_released : ℕ → List ℕ → ℕ
in_released n = sum_of (one_if n)

-- How often a lease was handed out by a call of `take`.
abbrev pub given : ℕ → Option ℕ → ℕ
given n none = 0
given n (some lease) = one_if n lease

-- The leases that the registry has charge of or has released.
unfoldable pub accounted : ℕ → Registry → ℕ
accounted n r = in_entries n r.entries + in_released n r.released

drop_lease-count :
    (n : ℕ) (key : Text) (es : List (Text × Entry ℕ)) (e : Entry ℕ)
    → find_lease key es ≡ some e
    → in_entries n es ≡ one_if n e.value + in_entries n (drop_lease key es)
unfolding find_lease drop_lease
drop_lease-count n key [] e h = cc
drop_lease-count n key ((k, f) ∷ es) e h = ground (arith, drop_lease-count n key es e)

delete-accounted : (n : ℕ) (key : Text) (r : Registry) → accounted n (delete key r) ≡ accounted n r
unfolding accounted delete
delete-accounted n key r = elim (Option-cases (find_lease key r.entries)) [
  | inl e ↦ ground (arith, e)
  | inr (x, e) ↦ ground (arith, e, drop_lease-count n key r.entries x e)
]

delete_all-accounted :
    (n : ℕ) (ks : List Text) (r : Registry) → accounted n (delete_all ks r) ≡ accounted n r
unfolding delete_all
delete_all-accounted n [] r = refl
delete_all-accounted n (k ∷ ks) r = delete_all-accounted n ks (delete k r) ∙ delete-accounted n k r

evict-accounted :
    (n : ℕ) (es : List (Text × Entry ℕ)) (r : Registry) → accounted n (evict es r) ≡ accounted n r
unfolding evict
evict-accounted n [] r = refl
evict-accounted n ((k, e) ∷ es) r =
    ground (arith, evict-accounted n es (delete k r), delete-accounted n k r)

arm-accounted : (n now : ℕ) (r : Registry) → accounted n (arm now r) ≡ accounted n r
unfolding accounted arm
arm-accounted n now r = ground arith

purge-accounted : (n now : ℕ) (r : Registry) → accounted n (purge now r) ≡ accounted n r
unfolding purge
purge-accounted n now r =
    delete_all-accounted n (keys (keep (λ e. leb ((e.1).expires_at) now) r.entries)) r

set_key-accounted :
    (n now : ℕ) (key : Text) (lease : ℕ) (r : Registry)
    → accounted n (set_key now key lease r) ≡ accounted n r + one_if n lease
unfolding set_key accounted
set_key-accounted n now key lease r =
    let cleared = delete key (purge now r) in
    let roomy = evict cleared.entries cleared in
    let entry : Entry ℕ = record { value = lease; expires_at = now + roomy.ttl } in
    let added : Registry = record roomy { entries = roomy.entries ++ (key, entry) ∷ [] } in
    ground (
      arith,
      arm-accounted n now added,
      sum_of-append (λ (e : Text × Entry ℕ). one_if n ((e.1).value)) roomy.entries
          ((key, entry) ∷ []),
      evict-accounted n cleared.entries cleared,
      delete-accounted n key (purge now r),
      purge-accounted n now r,
    )

take_key-accounted :
    (n now : ℕ) (key : Text) (r : Registry)
    → accounted n ((take_key now key r).1) + given n ((take_key now key r).0) ≡ accounted n r
unfolding take_key accounted
take_key-accounted n now key r = elim (Option-cases (find_lease key r.entries)) [
  | inl e ↦ ground (arith, e, arm-accounted n now r)
  | inr (x, e) ↦ ground (
    arith,
    e,
    arm-accounted n now (delete key r),
    delete-accounted n key r,
    arm-accounted n now (record r { entries = drop_lease key r.entries }),
    drop_lease-count n key r.entries x e,
  )
]

fire-accounted : (n now : ℕ) (r : Registry) → accounted n (fire now r) + 0 ≡ accounted n r + 0
unfolding fire accounted
fire-accounted n now r =
    let quiet : Registry = record r { timer = none } in
    ground (arith, arm-accounted n now (purge now quiet), purge-accounted n now quiet)

close-accounted : (n : ℕ) (r : Registry) → accounted n (close r) + 0 ≡ accounted n r + 0
unfolding close accounted
close-accounted n r =
    ground
      (arith, delete_all-accounted n (keys r.entries) (record r { closed = true; timer = none }))

pub data Call : Type 0 where
  sets : ℕ → Text → ℕ → Call
  takes : ℕ → Text → Call
  fires : ℕ → Call
  closes : Call

abbrev after_set : Registry → Outcome → Registry
after_set r (registered r') = r'
after_set r registry_closed = r
after_set r invalid_route = r

unfoldable pub step : Call → Registry → Registry
unfolding set
step (sets now path lease) r = after_set r (set now path lease r)
step (takes now path) r = (take now path r).1
step (fires now) r = fire now r
step closes r = close r

abbrev accepted : Outcome → Bool
accepted (registered _) = true
accepted _ = false

-- How often a call brings a lease in, and how often it hands it out.
unfoldable pub brought : ℕ → Call → Registry → ℕ
unfolding set
brought n (sets now path lease) r = if accepted (set now path lease r) then one_if n lease else 0
brought n _ r = 0

unfoldable pub handed_out : ℕ → Call → Registry → ℕ
handed_out n (takes now path) r = given n ((take now path r).0)
handed_out n _ r = 0

step-accounted :
    (n : ℕ) (c : Call) (r : Registry)
    → accounted n (step c r) + handed_out n c r ≡ accounted n r + brought n c r
unfolding step brought handed_out take
step-accounted n (sets now path lease) r = elim (Option-cases (normalized path)) [
  | inl e ↦ ground (arith, e)
  | inr (key, e) ↦ ground (arith, e, set_key-accounted n now key lease r)
]
step-accounted n (takes now path) r = elim (Option-cases (normalized path)) [
  | inl e ↦ ground (arith, e)
  | inr (key, e) ↦ ground (arith, e, take_key-accounted n now key r)
]
step-accounted n (fires now) r = fire-accounted n now r
step-accounted n closes r = close-accounted n r

unfoldable pub run : List Call → Registry → Registry
run [] r = r
run (c ∷ cs) r = run cs (step c r)

unfoldable pub total_brought : ℕ → List Call → Registry → ℕ
total_brought n [] r = 0
total_brought n (c ∷ cs) r = brought n c r + total_brought n cs (step c r)

unfoldable pub total_handed_out : ℕ → List Call → Registry → ℕ
total_handed_out n [] r = 0
total_handed_out n (c ∷ cs) r = handed_out n c r + total_handed_out n cs (step c r)

-- Over any history of calls, each lease that `set` took in is held by an entry, or was released,
-- or was handed out by `take`, as often in all as it was taken in: none is lost, and none is
-- released after it was handed out or released before.
pub run-accounted :
    (n : ℕ) (cs : List Call) (r : Registry)
    → accounted n (run cs r) + total_handed_out n cs r ≡ accounted n r + total_brought n cs r
unfolding run total_brought total_handed_out
run-accounted n [] r = refl
run-accounted n (c ∷ cs) r = omega (arith, run-accounted n cs (step c r), step-accounted n c r)

delete_all_empty :
    (es : List (Text × Entry ℕ)) (r : Registry)
    → r.entries ≡ es
    → (delete_all (keys es) r).entries ≡ []
unfolding delete_all delete find_lease drop_lease
delete_all_empty [] r h = h
delete_all_empty ((k, e) ∷ es) r h =
    delete_all_empty es (delete k r) (rw (h, delete) (ground (arith, text_eq_refl k)))

-- Closing an open registry releases every lease that it still held, each as often as it held it.
pub close-releases :
    (n : ℕ) (r : Registry)
    → r.closed ≡ false
    → ((close r).entries ≡ [])
      × (in_released n (close r).released ≡ in_released n r.released + in_entries n r.entries)
unfolding close accounted
close-releases n r open_ =
    let quiet : Registry = record r { closed = true; timer = none } in
    let e = delete_all_empty r.entries quiet refl in
    ground (arith, e, delete_all-accounted n (keys r.entries) quiet)
