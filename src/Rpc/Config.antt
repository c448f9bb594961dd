-- ===== src/Rpc/Config.antt =====
-- The configuration of the resilient client and the policy that it gives. The jitter fraction is a
-- float: `jitter_in_range` is whether it lies from 0 to 1.
use chain_watch.Prelude.{
  ℕ, ◌≤◌, ◌<◌, ◌≡◌, Bool, false, not, ℤ, pos, negsuc, less, nat_eq, ltb, arith, if◌then◌else◌,
}
use chain_watch.Errors.{text, validation, Result, ok, err, new_domain_error}
use chain_watch.Rpc.{RpcResilienceConfig, RetryPolicy}

abbrev pub positive : ℤ → Bool
positive (pos n) = ltb 0 n
positive (negsuc n) = false

abbrev pub magnitude : ℤ → ℕ
magnitude (pos n) = n
magnitude (negsuc n) = 0

unfoldable pub validate_config : Bool → RpcResilienceConfig → Result (Unit {0})
validate_config jitter_in_range c =
    if not (positive c.max_attempts)
    then err (text "RPC max attempts must be greater than zero")
    else if not (positive c.initial_backoff)
    then err (text "RPC initial backoff must be greater than zero")
    else if less c.max_backoff c.initial_backoff
    then err (text "RPC max backoff must be at least the initial backoff")
    else if not jitter_in_range
    then err (text "RPC jitter fraction must be between zero and one")
    else if not (positive c.requests_per_second)
    then err (text "RPC requests per second must be greater than zero")
    else if not (positive c.burst)
    then err (text "RPC burst must be greater than zero")
    else ok tt

abbrev pub policy_of : RpcResilienceConfig → RetryPolicy
policy_of c = record {
  max_attempts = magnitude c.max_attempts;
  initial_backoff = magnitude c.initial_backoff;
  max_backoff = magnitude c.max_backoff;
}

abbrev pub policy_if_valid : RpcResilienceConfig → Result (Unit {0}) → Result RetryPolicy
policy_if_valid c (err e) =
    err (new_domain_error validation "validate RPC resilience configuration" e)
policy_if_valid c (ok u) = ok (policy_of c)

-- The checks of NewResilientEthereumClient on its configuration, and the policy of the client.
unfoldable pub new_resilient_policy : Bool → RpcResilienceConfig → Result RetryPolicy
new_resilient_policy jitter_in_range c = policy_if_valid c (validate_config jitter_in_range c)

-- A policy that a client is made with has an attempt, and its initial backoff is positive and at most
-- the greatest one.
new_resilient_policy_lem :
    (jitter_in_range : Bool) (c : RpcResilienceConfig) (p : RetryPolicy)
    → new_resilient_policy jitter_in_range c ≡ ok p
    → (0 < p.max_attempts) × (0 < p.initial_backoff) × (p.initial_backoff ≤ p.max_backoff)
unfolding new_resilient_policy validate_config
new_resilient_policy_lem j c p made =
    go c.max_attempts c.initial_backoff c.max_backoff c.requests_per_second c.burst made
  where
    go :
        (attempts initial most requests burst : ℤ)
        → new_resilient_policy j (record {
          max_attempts = attempts;
          initial_backoff = initial;
          max_backoff = most;
          requests_per_second = requests;
          burst = burst;
        })
          ≡ ok p
        → (0 < p.max_attempts) × (0 < p.initial_backoff) × (p.initial_backoff ≤ p.max_backoff)
    go (pos a) (pos i) (pos m) (pos r) (pos b) h = ground arith
    go (pos a) (pos i) (pos m) (pos r) (negsuc b) h = ground arith
    go (pos a) (pos i) (pos m) (negsuc r) b h = ground arith
    go (pos a) (pos i) (negsuc m) r b h = ground arith
    go (pos a) (negsuc i) m r b h = ground arith
    go (negsuc a) i m r b h = cc
