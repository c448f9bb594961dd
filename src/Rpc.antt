-- ===== src/Rpc.antt =====
-- internal/ethereum/rpc_resilience.go: retries of RPC calls. The rate limiter and the jitter compute
-- with floating point: waiting for the limiter, the delay that the jitter makes of a delay, and sleeping
-- are calls of an interface.
pub mod Delay
pub mod Attempts
pub mod Config
pub mod Client
use chain_watch.Prelude.{
  ℕ, zero, suc, ◌+◌, ◌*◌, ◌/◌, ◌-◌, String, Bool, true, false, ◌&&◌, ◌||◌, ◌==◌, nat_eq, ltb, leb,
  ℤ, pos, negsuc, if◌then◌else◌, Option, none, some,
}
use chain_watch.Errors.{
  Sentinel, GoError, nil, sentinel, text, wrapped, domain_error, public_error, joined, http_error,
  network_error, rpc_error, is, is_nil, Result, ok, err, new_domain_error, validation,
  invalid_token_address, chain_reorg, temporary_dependency, canceled, deadline_exceeded,
  ethereum_not_found, eof, unexpected_eof, connection_reset, connection_refused, broken_pipe,
}
use chain_watch.Effects.{Action}

-- The whole numbers of the configuration; a duration is in nanoseconds.
pub record RpcResilienceConfig : Type 0 where
  pub max_attempts : ℤ
  pub initial_backoff : ℤ
  pub max_backoff : ℤ
  pub requests_per_second : ℤ
  pub burst : ℤ

unfoldable pub retryable_http_status : ℕ → Bool
retryable_http_status status = status == 408 || status == 425 || status == 429 || leb 500 status

-- `errors.As` for the three classes of library errors: the first one met in the order of `Unwrap`.
unfoldable pub as_http_error : GoError → Option ℕ
as_http_error (http_error status) = some status
as_http_error (wrapped message cause) = as_http_error cause
as_http_error (public_error status message cause) = as_http_error cause
as_http_error (domain_error category operation cause) =
    let first = as_http_error category in
    let second = as_http_error cause in elim first [ none ↦ second | some status ↦ some status ]
as_http_error (joined a b) =
    let first = as_http_error a in
    let second = as_http_error b in elim first [ none ↦ second | some status ↦ some status ]
as_http_error _ = none

unfoldable pub as_network_error : GoError → Option Bool
as_network_error (network_error timeout temporary) = some (timeout || temporary)
as_network_error (wrapped message cause) = as_network_error cause
as_network_error (public_error status message cause) = as_network_error cause
as_network_error (domain_error category operation cause) =
    let first = as_network_error category in
    let second = as_network_error cause in elim first [ none ↦ second | some b ↦ some b ]
as_network_error (joined a b) =
    let first = as_network_error a in
    let second = as_network_error b in elim first [ none ↦ second | some b ↦ some b ]
as_network_error _ = none

abbrev pub retryable_code : ℤ → Bool
retryable_code (pos n) = false
retryable_code (negsuc n) = n == 32001 || n == 32602

unfoldable pub as_rpc_error : GoError → Option Bool
as_rpc_error (rpc_error code) = some (retryable_code code)
as_rpc_error (wrapped message cause) = as_rpc_error cause
as_rpc_error (public_error status message cause) = as_rpc_error cause
as_rpc_error (domain_error category operation cause) =
    let first = as_rpc_error category in
    let second = as_rpc_error cause in elim first [ none ↦ second | some b ↦ some b ]
as_rpc_error (joined a b) =
    let first = as_rpc_error a in
    let second = as_rpc_error b in elim first [ none ↦ second | some b ↦ some b ]
as_rpc_error _ = none

unfoldable pub is_permanent : GoError → Bool
is_permanent e =
    is_nil e
    || is e canceled
    || is e deadline_exceeded
    || is e validation
    || is e invalid_token_address
    || is e chain_reorg

unfoldable pub is_transient : GoError → Bool
is_transient e =
    is e temporary_dependency
    || is e ethereum_not_found
    || is e eof
    || is e unexpected_eof
    || is e connection_reset
    || is e connection_refused
    || is e broken_pipe

abbrev pub by_rpc : Option Bool → Bool
by_rpc none = false
by_rpc (some b) = b

abbrev pub by_network : Option Bool → Option Bool → Bool
by_network none code = by_rpc code
by_network (some b) code = b

abbrev pub by_http : Option ℕ → Option Bool → Option Bool → Bool
by_http none network code = by_network network code
by_http (some status) network code = retryable_http_status status

unfoldable pub is_retryable_rpc_error : GoError → Bool
is_retryable_rpc_error e =
    if is_permanent e
    then false
    else if is_transient e
    then true
    else by_http (as_http_error e) (as_network_error e) (as_rpc_error e)

-- The whole numbers of `rpcRetryPolicy`, as `NewResilientEthereumClient` makes it from a valid configuration.
pub record RetryPolicy : Type 0 where
  pub max_attempts : ℕ
  pub initial_backoff : ℕ
  pub max_backoff : ℕ

-- The loop over `exponent`, by the number of rounds left.
unfoldable pub grow : ℕ → ℕ → ℕ → ℕ
grow zero cap delay = delay
grow (suc rounds) cap delay =
    let rest = grow rounds cap (delay * 2) in
    if ltb delay cap then (if ltb (cap / 2) delay then cap else rest) else delay

-- The delay of `wait` before the jitter.
unfoldable pub backoff : RetryPolicy → ℕ → ℕ
backoff p failed_attempt =
    let delay = grow (failed_attempt - 1) p.max_backoff p.initial_backoff in
    if ltb p.max_backoff delay then p.max_backoff else delay

-- What a call meets beside the node: `ctx.Err()`, the limiter, the jitter and the sleep. `jittered` is
-- what lines 196 to 203 make of a delay in float64, with the random number that comes next in the world.
pub record RpcContext (W : Type 0) : Type 0 where
  pub limiter_wait : W → GoError × W
  pub ctx_err : W → GoError
  pub jittered : W → ℕ → ℕ
  pub sleep : ℕ → W → GoError × W

pub record RpcCounters : Type 0 where
  pub rpc_requests : ℕ
  pub rpc_failures : ℕ
  pub rpc_retries : ℕ

-- `rpcRetryPolicy.wait`.
abbrev pub wait : {W : Type 0} → RpcContext W → RetryPolicy → ℕ → W → GoError × W
wait context policy failed_attempt w =
    context.sleep (context.jittered w (backoff policy failed_attempt)) w

module _ {W A : Type 0} (context : RpcContext W) (policy : RetryPolicy) (call : Action W A) where
  -- What follows the sleep between two attempts.
  abbrev pub rested :
      (RpcCounters → W → Result A × RpcCounters × W)
      → RpcCounters
      → GoError × W
      → Result A × RpcCounters × W
  rested again m (e, w) = if is_nil e then again m w else (err e, m, w)

  -- A round of the loop from the answer of the call on; `again` is the next round.
  unfoldable pub answered :
      (RpcCounters → W → Result A × RpcCounters × W)
      → ℕ
      → RpcCounters
      → Result A × W
      → Result A × RpcCounters × W
  answered again attempt m (ok value, w) = (ok value, m, w)
  answered again attempt m (err e, w) =
      if is_nil (context.ctx_err w)
      then if is_retryable_rpc_error e
        then if attempt == policy.max_attempts
          then (
            err (
                new_domain_error temporary_dependency "RPC retry budget exhausted after %d attempts"
                  e),
            record m { rpc_failures = m.rpc_failures + 1 },
            w,
          )
          else rested again (record m { rpc_retries = m.rpc_retries + 1 })
              (wait context policy attempt w)
        else (err e, record m { rpc_failures = m.rpc_failures + 1 }, w)
      else (err (context.ctx_err w), m, w)

  -- The loop over `attempt`, by the number of attempts left. Without any the zero value is returned
  -- with `lastErr`, which is nil if there was no attempt at all.
  unfoldable pub attempts : ℕ → ℕ → RpcCounters → W → Result A × RpcCounters × W
  attempts zero attempt m w = (err nil, m, w)
  attempts (suc left) attempt m w =
      let again = attempts left (attempt + 1) in
      let waited = context.limiter_wait w in
      if is_nil waited.0
      then answered again attempt (record m { rpc_requests = m.rpc_requests + 1 }) (call waited.1)
      else (err waited.0, m, waited.1)

  unfoldable pub execute_resilient_rpc : RpcCounters → W → Result A × RpcCounters × W
  execute_resilient_rpc = attempts policy.max_attempts 1
