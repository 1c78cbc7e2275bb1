-- ===== src/Budget/Bounds.antt =====
-- src/hashtree/reader.ts, `RequestBudget`: the counters under sequences of calls.
use nixstr_cache.Prelude.{
  ℕ, ◌≤◌, ◌≡◌, refl, Bool, true, false, some, List, [], ◌∷◌, arith, length, Text,
}
use nixstr_cache.Budget.{
  Limits, Budget, Outcome, done, threw, deadline_exceeded, create, check_depth, debit_links, visit,
  debit_decoded, debit_attempt, debit_redirect, debit_transfer, ensure_output_available,
  debit_output, acquire, release,
}

pub record IsWithin (b : Budget) : Type 0 where
  pub links : b.links ≤ b.limits.max_links
  pub nodes : length b.nodes ≤ b.limits.max_unique_nodes
  pub decoded : b.decoded ≤ b.limits.max_decoded_bytes
  pub attempts : b.attempts ≤ b.limits.max_attempts
  pub redirects : b.redirects ≤ b.limits.max_redirects
  pub concurrent : b.concurrent ≤ b.limits.max_concurrent
  pub transferred : b.transferred ≤ b.limits.max_transferred_bytes
  pub output : b.output ≤ b.limits.max_output_bytes

-- The calls on a budget; `releases` says whether the slot is still held.
pub data Call : Type 0 where
  checks_depth links decodes transfers outputs ensures : ℕ → Call
  visits : Text → Call
  attempts redirects acquires : Call
  releases : Bool → Call

abbrev after : {A : Type 0} → Budget → Outcome A → Budget
after b (done _ b') = b'
after b (threw _) = b

abbrev threw_deadline : {A : Type 0} → Outcome A → Bool
threw_deadline (threw deadline_exceeded) = true
threw_deadline _ = false

-- The budget after a call that is made at a time.
unfoldable pub step : ℕ → Call → Budget → Budget
step now (checks_depth depth) b = after b (check_depth now depth b)
step now (links n) b = after b (debit_links now n b)
step now (decodes n) b = after b (debit_decoded now n b)
step now (transfers n) b = after b (debit_transfer now n b)
step now (outputs n) b = after b (debit_output now n b)
step now (ensures n) b = after b (ensure_output_available now n b)
step now (visits hash) b = after b (visit now hash b)
step now attempts b = after b (debit_attempt now b)
step now redirects b = after b (debit_redirect now b)
step now acquires b = after b (acquire now b)
step now (releases held) b = (release held b).1

unfoldable pub run : List (ℕ × Call) → Budget → Budget
run [] b = b
run ((now, c) ∷ cs) b = run cs (step now c b)

-- What a call keeps: the limits, the bounds, and that nothing spent is given back.
pub record Spends (b b' : Budget) : Type 0 where
  pub limits : b'.limits ≡ b.limits
  pub links : b.links ≤ b'.links
  pub nodes : length b.nodes ≤ length b'.nodes
  pub decoded : b.decoded ≤ b'.decoded
  pub attempts : b.attempts ≤ b'.attempts
  pub redirects : b.redirects ≤ b'.redirects
  pub transferred : b.transferred ≤ b'.transferred
  pub output : b.output ≤ b'.output

step-IsWithin : (now : ℕ) (c : Call) (b : Budget) → IsWithin b → IsWithin (step now c b)
unfolding step check_depth debit_links visit debit_decoded debit_attempt debit_redirect
    debit_transfer debit_output acquire release
step-IsWithin now (checks_depth depth) b v = ground arith
step-IsWithin now (releases true) b v = ground arith
step-IsWithin now (releases false) b v = v
step-IsWithin now _ b v = ground arith

step-Spends : (now : ℕ) (c : Call) (b : Budget) → Spends b (step now c b)
unfolding step check_depth debit_links visit debit_decoded debit_attempt debit_redirect
    debit_transfer debit_output acquire release
step-Spends now (checks_depth depth) b = ground arith
step-Spends now (releases true) b = ground arith
step-Spends now (releases false) b = ground arith
step-Spends now _ b = ground arith

Spends-trans : (a b c : Budget) → Spends a b → Spends b c → Spends a c
Spends-trans a b c h k = ground arith

run-IsWithin : (cs : List (ℕ × Call)) (b : Budget) → IsWithin b → IsWithin (run cs b)
unfolding run
run-IsWithin [] b v = v
run-IsWithin ((now, c) ∷ cs) b v = run-IsWithin cs (step now c b) (step-IsWithin now c b v)

run-Spends : (cs : List (ℕ × Call)) (b : Budget) → Spends b (run cs b)
unfolding run
run-Spends [] b = ground arith
run-Spends ((now, c) ∷ cs) b =
    Spends-trans _ _ _ (step-Spends now c b) (run-Spends cs (step now c b))

-- A budget that the constructor accepts stays within every limit whatever is called on it, in
-- any order and at any time; its limits stay, and nothing that was spent is given back.
pub run-create-IsWithin :
    (l : Limits) (b : Budget) (cs : List (ℕ × Call))
    → create l ≡ some b
    → IsWithin (run cs b) × Spends b (run cs b)
unfolding create
run-create-IsWithin l b cs h = (run-IsWithin cs b (ground arith), run-Spends cs b)

-- A call on a budget whose deadline has passed changes nothing but the number of slots in use.
pub step_late :
    (now : ℕ) (c : Call) (b : Budget)
    → b.limits.deadline ≤ now
    → step now c b ≡ record b { concurrent = (step now c b).concurrent }
unfolding step check_depth debit_links visit debit_decoded debit_attempt debit_redirect
    debit_transfer debit_output acquire release
step_late now (checks_depth depth) b h = ground arith
step_late now (releases true) b h = refl
step_late now (releases false) b h = refl
step_late now _ b h = ground arith
