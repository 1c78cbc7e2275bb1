-- ===== src/Budget.antt =====
-- src/hashtree/reader.ts, `RequestBudget`: what one request may spend. `now` is the answer of
-- `Date.now()` in the call.
pub mod Bounds
use nixstr_cache.Prelude.{
  ℕ, ◌+◌, ◌-◌, ◌≡◌, Bool, true, false, not, ◌&&◌, Option, none, some, List, [], ◌∷◌, leb, ltb,
  if◌then◌else◌, length, any, all, Text, text_eq,
}

pub record Limits : Type 0 where
  pub max_depth : ℕ
  pub max_links : ℕ
  pub max_unique_nodes : ℕ
  pub max_decoded_bytes : ℕ
  pub max_attempts : ℕ
  pub max_redirects : ℕ
  pub max_concurrent : ℕ
  pub max_blob_transfer_bytes : ℕ
  pub max_transferred_bytes : ℕ
  pub max_output_bytes : ℕ
  pub deadline : ℕ

pub record Budget : Type 0 where
  pub limits : Limits
  pub links : ℕ
  pub nodes : List Text
  pub decoded : ℕ
  pub attempts : ℕ
  pub redirects : ℕ
  pub concurrent : ℕ
  pub transferred : ℕ
  pub output : ℕ

pub data Error : Type 0 where
  not_positive deadline_exceeded depth_exceeded links_exceeded nodes_exceeded decoded_exceeded :
      Error
  attempts_exceeded redirects_exceeded concurrency_exceeded : Error
  transfer_exceeded output_exceeded unsafe_count : Error

-- A call returns a value and the new budget, or throws and changes nothing.
pub data Outcome (A : Type 0) : Type 0 where
  done : A → Budget → Outcome A
  threw : Error → Outcome A

abbrev pub max_safe : ℕ
max_safe = 9007199254740991

unfoldable pub is_positive : ℕ → Bool
is_positive n = leb 1 n && leb n max_safe

abbrev pub values : Limits → List ℕ
values l =
    l.max_depth ∷ l.max_links ∷ l.max_unique_nodes ∷ l.max_decoded_bytes ∷ l.max_attempts
    ∷ l.max_redirects ∷ l.max_concurrent ∷ l.max_blob_transfer_bytes ∷ l.max_transferred_bytes
    ∷ l.max_output_bytes ∷ l.deadline ∷ []

-- The constructor; `none` is the `RangeError`.
unfoldable pub create : Limits → Option Budget
unfolding is_positive
create l =
    if all is_positive (values l)
    then some (record {
      limits = l;
      links = 0;
      nodes = [];
      decoded = 0;
      attempts = 0;
      redirects = 0;
      concurrent = 0;
      transferred = 0;
      output = 0;
    })
    else none

-- `#live` before the rest of a call.
unfoldable pub live : {A : Type 0} → ℕ → Budget → Outcome A → Outcome A
live now b rest = if leb b.limits.deadline now then threw deadline_exceeded else rest

unfoldable pub check_depth : ℕ → ℕ → Budget → Outcome (Unit {0})
unfolding live
check_depth now depth b =
    live now b (if ltb b.limits.max_depth depth then threw depth_exceeded else done tt b)

unfoldable pub debit_links : ℕ → ℕ → Budget → Outcome (Unit {0})
unfolding live
debit_links now count b = live now b (
    if ltb b.limits.max_links (b.links + count)
    then threw links_exceeded
    else done tt (record b { links = b.links + count }))

-- `visit` says whether the node is new.
unfoldable pub visit : ℕ → Text → Budget → Outcome Bool
unfolding live
visit now hash b = live now b (
    if any (text_eq hash) b.nodes
    then done false b
    else if leb b.limits.max_unique_nodes (length b.nodes)
    then threw nodes_exceeded
    else done true (record b { nodes = hash ∷ b.nodes }))

unfoldable pub debit_decoded : ℕ → ℕ → Budget → Outcome (Unit {0})
unfolding live
debit_decoded now count b = live now b (
    if ltb b.limits.max_decoded_bytes (b.decoded + count)
    then threw decoded_exceeded
    else done tt (record b { decoded = b.decoded + count }))

unfoldable pub debit_attempt : ℕ → Budget → Outcome (Unit {0})
unfolding live
debit_attempt now b = live now b (
    if leb b.limits.max_attempts b.attempts
    then threw attempts_exceeded
    else done tt (record b { attempts = b.attempts + 1 }))

unfoldable pub debit_redirect : ℕ → Budget → Outcome (Unit {0})
unfolding live
debit_redirect now b = live now b (
    if leb b.limits.max_redirects b.redirects
    then threw redirects_exceeded
    else done tt (record b { redirects = b.redirects + 1 }))

-- `remainingTransferBytes` and `remainingOutputBytes`.
abbrev pub remaining_transfer : Budget → ℕ
remaining_transfer b = b.limits.max_transferred_bytes - b.transferred

abbrev pub remaining_output : Budget → ℕ
remaining_output b = b.limits.max_output_bytes - b.output

unfoldable pub debit_transfer : ℕ → ℕ → Budget → Outcome (Unit {0})
unfolding live
debit_transfer now count b = live now b (
    if ltb max_safe count
    then threw unsafe_count
    else if ltb (remaining_transfer b) count
    then threw transfer_exceeded
    else done tt (record b { transferred = b.transferred + count }))

unfoldable pub ensure_output_available : ℕ → ℕ → Budget → Outcome (Unit {0})
unfolding live
ensure_output_available now count b = live now b (
    if ltb max_safe count
    then threw unsafe_count
    else if ltb (remaining_output b) count
    then threw output_exceeded
    else done tt b)

unfoldable pub debit_output : ℕ → ℕ → Budget → Outcome (Unit {0})
unfolding ensure_output_available
debit_output now count b = elim (ensure_output_available now count b) [
  | threw e ↦ threw e
  | done _ b' ↦ done tt (record b' { output = b'.output + count })
]

-- What `acquire` returns is a slot that is held; it is released once at most.
unfoldable pub acquire : ℕ → Budget → Outcome (Unit {0})
unfolding live
acquire now b = live now b (
    if leb b.limits.max_concurrent b.concurrent
    then threw concurrency_exceeded
    else done tt (record b { concurrent = b.concurrent + 1 }))

unfoldable pub release : Bool → Budget → Bool × Budget
release true b = (false, record b { concurrent = b.concurrent - 1 })
release false b = (false, b)
