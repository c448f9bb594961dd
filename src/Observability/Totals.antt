-- ===== src/Observability/Totals.antt =====
-- The counters behind calls that run at once.
use chain_watch.Prelude.{
  ℕ, ◌+◌, ◌^◌, ◌<◌, ◌≤◌, ◌≡◌, ◌∙◌, refl, ap, List, [], ◌∷◌, ◌++◌, All, ℤ, pos, negsuc, pos_part,
  neg_part, Bool-cases, inl, inr, arith, if◌then◌else◌,
}
use chain_watch.Domain.{u64}
use chain_watch.Observability.{
  Counter, same_counter, Metrics, Add, add, Call, observe_http_request, record_indexed_block,
  record_indexer_error, record_token_metadata_error, record_rpc_request, record_rpc_retry,
  record_rpc_failure, http_errors, http_requests, http_duration_nanos, indexed_blocks,
  indexed_transfers, indexer_errors, token_metadata_errors, rpc_requests, rpc_retries, rpc_failures,
  as_u64, adds, Counter-discrete, is_server_error, is_positive, new_metrics, add_all, calls_in_turn,
}
use mathlib.Core.List.{Permᴰ}
use mathlib.Core.Logic.{ite}
use native.Mathlib.Decide.{dec_lt}

-- The sum of what is added to a counter.
unfoldable pub total_of : Counter → List Add → ℕ
total_of counter [] = 0
total_of counter (a ∷ rest) =
    (if same_counter a.counter counter then a.amount else 0) + total_of counter rest

total_of-Perm :
    (counter : Counter) {xs ys : List Add} → Permᴰ xs ys → total_of counter xs ≡ total_of counter ys
unfolding total_of
total_of-Perm counter Permᴰ.nil = refl
total_of-Perm counter {xs = x ∷ xs} {ys = y ∷ ys} (Permᴰ.cons e p) =
    let front = λ (a : Add). if same_counter a.counter counter then a.amount else 0 in
    ap (λ a. front a + total_of counter xs) e ∙ ap (λ n. front y + n) (total_of-Perm counter p)
total_of-Perm counter (Permᴰ.swap e f) = rw (e, f) (omega arith)
total_of-Perm counter (Permᴰ.trans p q) = total_of-Perm counter p ∙ total_of-Perm counter q

wrap_once : (a b c : ℕ) → u64 (u64 (a + b) + c) ≡ u64 (a + (b + c))
wrap_once a b c = omega arith

add_all-total_of :
    (counter : Counter) (order : List Add) (m : Metrics)
    → m counter < 2 ^ 64
    → add_all order m counter ≡ u64 (m counter + total_of counter order)
unfolding add_all add total_of
add_all-total_of counter [] m fits = omega arith
add_all-total_of counter (a ∷ rest) m fits = elim (Bool-cases (same_counter a.counter counter)) [
  | inl same ↦
      let left = add_all-total_of counter rest (add a m) (rw same (omega arith)) in
      (rw same at left) ∙ rw same (wrap_once (m counter) a.amount (total_of counter rest))
  | inr other ↦
      let left = add_all-total_of counter rest (add a m) (rw other fits) in
      (rw other at left) ∙ rw other (omega arith)
]

total_of-append :
    (counter : Counter) (xs ys : List Add)
    → total_of counter (xs ++ ys) ≡ total_of counter xs + total_of counter ys
unfolding total_of
total_of-append counter [] ys = omega arith
total_of-append counter (x ∷ xs) ys = rw (total_of-append counter xs ys) (omega arith)

-- By how much a call changes a counter.
unfoldable pub change : Counter → Call → ℤ
change http_requests (observe_http_request status duration) = pos 1
change http_errors (observe_http_request (pos status) duration) =
    ite (dec_lt status 500) (pos 0) (pos 1)
change http_duration_nanos (observe_http_request status duration) = duration
change indexed_blocks (record_indexed_block transfer_count) = pos 1
change indexed_transfers (record_indexed_block transfer_count) = pos (pos_part transfer_count)
change indexer_errors record_indexer_error = pos 1
change token_metadata_errors record_token_metadata_error = pos 1
change rpc_requests record_rpc_request = pos 1
change rpc_retries record_rpc_retry = pos 1
change rpc_failures record_rpc_failure = pos 1
change _ _ = pos 0

-- The duration of a request is an int64, also a negative one.
abbrev pub DurationFits : Call → Type 0
DurationFits (observe_http_request status duration) = neg_part duration ≤ 2 ^ 63
DurationFits _ = Unit

-- What calls add to a counter, and what they take from it.
unfoldable pub gained : Counter → List Call → ℕ
gained counter [] = 0
gained counter (c ∷ calls) = pos_part (change counter c) + gained counter calls

unfoldable pub lost : Counter → List Call → ℕ
lost counter [] = 0
lost counter (c ∷ calls) = neg_part (change counter c) + lost counter calls

abbrev Changes : Counter → Call → Type 0
Changes counter c =
    u64 (total_of counter (adds c) + neg_part (change counter c))
    ≡ u64 (pos_part (change counter c))

request-Changes :
    (counter : Counter) (status duration : ℤ)
    → neg_part duration ≤ 2 ^ 63
    → Changes counter (observe_http_request status duration)
unfolding total_of adds same_counter Counter-discrete change as_u64 dec_lt
request-Changes http_requests (pos n) duration fits = ground arith
request-Changes http_requests (negsuc n) duration fits = ground arith
request-Changes http_errors (pos n) duration fits = ground arith
request-Changes http_errors (negsuc n) duration fits = ground arith
request-Changes counter (pos n) (pos k) fits = ground arith
request-Changes counter (negsuc n) (pos k) fits = ground arith
request-Changes counter (pos n) (negsuc k) fits = ground arith
request-Changes counter (negsuc n) (negsuc k) fits = ground arith

block-Changes :
    (counter : Counter) (transfer_count : ℤ) → Changes counter (record_indexed_block transfer_count)
unfolding total_of adds same_counter Counter-discrete change as_u64
block-Changes http_requests (pos n) = ground arith
block-Changes http_requests (negsuc n) = ground arith
block-Changes counter (pos n) = ground arith
block-Changes counter (negsuc n) = ground arith

indexer_error-Changes : (counter : Counter) → Changes counter record_indexer_error
unfolding total_of adds same_counter Counter-discrete change
indexer_error-Changes http_requests = refl
indexer_error-Changes counter = refl

metadata_error-Changes : (counter : Counter) → Changes counter record_token_metadata_error
unfolding total_of adds same_counter Counter-discrete change
metadata_error-Changes http_requests = refl
metadata_error-Changes counter = refl

rpc_request-Changes : (counter : Counter) → Changes counter record_rpc_request
unfolding total_of adds same_counter Counter-discrete change
rpc_request-Changes http_requests = refl
rpc_request-Changes counter = refl

rpc_retry-Changes : (counter : Counter) → Changes counter record_rpc_retry
unfolding total_of adds same_counter Counter-discrete change
rpc_retry-Changes http_requests = refl
rpc_retry-Changes counter = refl

rpc_failure-Changes : (counter : Counter) → Changes counter record_rpc_failure
unfolding total_of adds same_counter Counter-discrete change
rpc_failure-Changes http_requests = refl
rpc_failure-Changes counter = refl

call-Changes : (counter : Counter) (c : Call) → DurationFits c → Changes counter c
call-Changes counter (observe_http_request status duration) fits =
    request-Changes counter status duration fits
call-Changes counter (record_indexed_block transfer_count) fits =
    block-Changes counter transfer_count
call-Changes counter record_indexer_error fits = indexer_error-Changes counter
call-Changes counter record_token_metadata_error fits = metadata_error-Changes counter
call-Changes counter record_rpc_request fits = rpc_request-Changes counter
call-Changes counter record_rpc_retry fits = rpc_retry-Changes counter
call-Changes counter record_rpc_failure fits = rpc_failure-Changes counter

total_of-calls :
    (counter : Counter) (calls : List Call)
    → All DurationFits calls
    → u64 (total_of counter (calls_in_turn calls) + lost counter calls) ≡ u64 (gained counter calls)
unfolding calls_in_turn total_of gained lost
total_of-calls counter [] fits = refl
total_of-calls counter (c ∷ calls) (fits, rest) =
    rw (total_of-append counter (adds c) (calls_in_turn calls))
      (omega (arith, call-Changes counter c fits, total_of-calls counter calls rest))

add_all-sum :
    (calls : List Call) (order : List Add) (m : Metrics) (counter : Counter)
    → Permᴰ order (calls_in_turn calls)
    → m counter < 2 ^ 64
    → add_all order m counter ≡ u64 (m counter + total_of counter (calls_in_turn calls))
add_all-sum calls order m counter p fits =
    add_all-total_of counter order m fits ∙ ap (λ n. u64 (m counter + n)) (total_of-Perm counter p)

-- For calls with durations of 64 bits, whose adds come in whatever order, and a counter below 2^64: what
-- the counter is behind them is, modulo 2^64, its value before plus the changes of all the calls. A
-- request changes the requests by one, the errors by one exactly if its status is at least 500, and the
-- nanoseconds by its duration, also if that is negative; a block changes the blocks by one and the
-- transfers by its count, a negative one by nothing; the other calls change their one counter by one.
pub add_all-total :
    (calls : List Call) (order : List Add) (m : Metrics) (counter : Counter)
    → Permᴰ order (calls_in_turn calls)
    → m counter < 2 ^ 64
    → All DurationFits calls
    → u64 (add_all order m counter + lost counter calls) ≡ u64 (m counter + gained counter calls)
add_all-total calls order m counter p below fits =
    omega (arith, add_all-sum calls order m counter p below, total_of-calls counter calls fits)

-- A call adds at most as much to the errors of HTTP as to its requests.
call_errors : (c : Call) → total_of http_errors (adds c) ≤ total_of http_requests (adds c)
unfolding total_of adds same_counter Counter-discrete
call_errors (observe_http_request status duration) = elim (Bool-cases (is_server_error status)) [
  | inl failed ↦ rw failed (omega arith)
  | inr fine ↦ rw fine (omega arith)
]
call_errors (record_indexed_block transfer_count) = elim (Bool-cases (is_positive transfer_count)) [
  | inl some_transfers ↦ rw some_transfers (omega arith)
  | inr no_transfers ↦ rw no_transfers (omega arith)
]
call_errors record_indexer_error = omega arith
call_errors record_token_metadata_error = omega arith
call_errors record_rpc_request = omega arith
call_errors record_rpc_retry = omega arith
call_errors record_rpc_failure = omega arith

all_errors :
    (calls : List Call)
    → total_of http_errors (calls_in_turn calls) ≤ total_of http_requests (calls_in_turn calls)
unfolding calls_in_turn total_of
all_errors [] = omega arith
all_errors (c ∷ calls) =
    rw
      (
        total_of-append http_errors (adds c) (calls_in_turn calls),
        total_of-append http_requests (adds c) (calls_in_turn calls),
      )
      (omega (arith, call_errors c, all_errors calls))

-- From new counters, with fewer than 2^64 requests counted: behind some calls, in whatever order their adds
-- came, there are at most as many errors of HTTP as requests.
errors_bounded :
    (calls : List Call) (order : List Add)
    → Permᴰ order (calls_in_turn calls)
    → total_of http_requests (calls_in_turn calls) < 2 ^ 64
    → add_all order new_metrics http_errors ≤ add_all order new_metrics http_requests
errors_bounded calls order p fits =
    rw
      (
        add_all-sum calls order new_metrics http_errors p (omega arith),
        add_all-sum calls order new_metrics http_requests p (omega arith),
      )
      (omega (arith, all_errors calls))
