-- ===== src/Observability.antt =====
-- internal/observability/metrics.go: the counters. A call adds to them one after the other, each time by
-- an `Add` of an atomic.Uint64; the adds of calls that run at once come in any order.
pub mod Totals
use chain_watch.Prelude.{
  ℕ, suc, ◌+◌, ◌-◌, ◌%◌, ◌^◌, Bool, true, false, List, [], ◌∷◌, ◌++◌, leb, ltb, ℤ, pos, negsuc,
  if◌then◌else◌,
}
use chain_watch.Domain.{u64}

-- The fields of Metrics.
pub data Counter : Type 0 where
  http_requests http_errors http_duration_nanos indexed_blocks indexed_transfers : Counter
  indexer_errors token_metadata_errors rpc_requests rpc_retries rpc_failures : Counter

Counter-discrete : Discrete Counter
Counter-discrete = hlevel

unfoldable pub same_counter : Counter → Counter → Bool
unfolding Counter-discrete
same_counter a b = elim (Counter-discrete a b) [ yes _ ↦ true | no _ ↦ false ]

-- The value of each field.
abbrev pub Metrics : Type 0
Metrics = Counter → ℕ

abbrev pub new_metrics : Metrics
new_metrics counter = 0

-- `uint64(i)` of an int64.
unfoldable pub as_u64 : ℤ → ℕ
as_u64 (pos n) = u64 n
as_u64 (negsuc n) = u64 (2 ^ 64 - suc n)

-- `counter.Add(amount)`.
pub record Add : Type 0 where
  pub counter : Counter
  pub amount : ℕ

unfoldable pub add : Add → Metrics → Metrics
add a m counter = if same_counter a.counter counter then u64 (m counter + a.amount) else m counter

-- The methods that record something.
pub data Call : Type 0 where
  observe_http_request : ℤ → ℤ → Call
  record_indexed_block : ℤ → Call
  record_indexer_error record_token_metadata_error : Call
  record_rpc_request record_rpc_retry record_rpc_failure : Call

abbrev pub is_server_error : ℤ → Bool
is_server_error (pos n) = leb 500 n
is_server_error (negsuc n) = false

abbrev pub is_positive : ℤ → Bool
is_positive (pos n) = ltb 0 n
is_positive (negsuc n) = false

abbrev pub one : Counter → Add
one counter = record { counter = counter; amount = 1 }

-- What a call adds, in its order.
unfoldable pub adds : Call → List Add
adds (observe_http_request status duration) =
    one http_requests
    ∷ record { counter = http_duration_nanos; amount = as_u64 duration }
    ∷ (if is_server_error status then one http_errors ∷ [] else [])
adds (record_indexed_block transfer_count) =
    one indexed_blocks
    ∷ (if is_positive transfer_count
        then record { counter = indexed_transfers; amount = as_u64 transfer_count } ∷ []
        else [])
adds record_indexer_error = one indexer_errors ∷ []
adds record_token_metadata_error = one token_metadata_errors ∷ []
adds record_rpc_request = one rpc_requests ∷ []
adds record_rpc_retry = one rpc_retries ∷ []
adds record_rpc_failure = one rpc_failures ∷ []

unfoldable pub add_all : List Add → Metrics → Metrics
add_all [] m = m
add_all (a ∷ rest) m = add_all rest (add a m)

-- One call behind the other.
unfoldable pub calls_in_turn : List Call → List Add
calls_in_turn [] = []
calls_in_turn (c ∷ cs) = adds c ++ calls_in_turn cs
