-- ===== src/Rpc/Attempts.antt =====
-- What a resilient call counts and returns.
use chain_watch.Prelude.{
  ℕ, zero, suc, ◌+◌, ◌≤◌, ◌<◌, ◌≡◌, ◌≢◌, refl, false, Bool-cases, ne_of_beq, inl, inr, ◌==◌, nat_eq,
  arith,
}
use chain_watch.Errors.{
  GoError, nil, Result, ok, err, is_nil, new_domain_error, temporary_dependency,
}
use chain_watch.Errors.Classify.{is_nil-new_domain_error}
use chain_watch.Effects.{Action}
use chain_watch.Rpc.{
  wait, RpcContext, RetryPolicy, RpcCounters, rested, answered, attempts, execute_resilient_rpc,
  is_retryable_rpc_error,
}

-- What `left` attempts add to the counters.
pub record Counted {W A : Type 0} (left : ℕ) (m : RpcCounters) (r : Result A × RpcCounters × W)
    : Type 0 where
  pub requests_le : r.1.rpc_requests ≤ m.rpc_requests + left
  pub one_failure : r.1.rpc_failures ≤ m.rpc_failures + 1
  pub retried : r.1.rpc_requests + m.rpc_retries ≤ r.1.rpc_retries + m.rpc_requests + 1
  pub succeeded :
      (a : A)
      → r.0 ≡ ok a
      → (r.1.rpc_failures ≡ m.rpc_failures)
        × (r.1.rpc_requests + m.rpc_retries ≡ r.1.rpc_retries + m.rpc_requests + 1)

module _ {W A : Type 0} (context : RpcContext W) (policy : RetryPolicy) (call : Action W A) where
  abbrev requested : RpcCounters → RpcCounters
  requested m = record m { rpc_requests = m.rpc_requests + 1 }

  abbrev retry_counted : RpcCounters → RpcCounters
  retry_counted m = record m { rpc_retries = m.rpc_retries + 1 }

  rested-Counted :
      (again : RpcCounters → W → Result A × RpcCounters × W) (left : ℕ) (m : RpcCounters)
      → ((w : W)
          → Counted left (retry_counted (requested m)) (again (retry_counted (requested m)) w))
      → (slept : GoError × W)
      → Counted (suc left) m (rested context policy call again (retry_counted (requested m)) slept)
  rested-Counted again left m next (e, w) = elim (Bool-cases (is_nil e)) [
    | inl fine ↦ rw fine (record {
      requests_le = omega (arith, (next w).requests_le);
      one_failure = (next w).one_failure;
      retried = omega (arith, (next w).retried);
      succeeded = λ a at. let s = (next w).succeeded a at in (s.0, omega (arith, s.1));
    })
    | inr stopped ↦ rw stopped (record {
      requests_le = omega arith;
      one_failure = omega arith;
      retried = omega arith;
      succeeded = λ a at. cc;
    })
  ]

  answered-Counted :
      (again : RpcCounters → W → Result A × RpcCounters × W) (left attempt : ℕ) (m : RpcCounters)
      → ((w : W)
          → Counted left (retry_counted (requested m)) (again (retry_counted (requested m)) w))
      → (answer : Result A × W)
      → Counted (suc left) m (answered context policy call again attempt (requested m) answer)
  unfolding answered
  answered-Counted again left attempt m next (ok a, w) = record {
    requests_le = omega arith;
    one_failure = omega arith;
    retried = omega arith;
    succeeded = λ b at. (refl, omega arith);
  }
  answered-Counted again left attempt m next (err e, w) =
      elim (Bool-cases (is_nil (context.ctx_err w))) [
        | inr done ↦ rw done (record {
          requests_le = omega arith;
          one_failure = omega arith;
          retried = omega arith;
          succeeded = λ a at. cc;
        })
        | inl live ↦ elim (Bool-cases (is_retryable_rpc_error e)) [
          | inr permanent ↦
              rw (live, permanent)
                (record {
                  requests_le = omega arith;
                  one_failure = omega arith;
                  retried = omega arith;
                  succeeded = λ a at. cc;
                })
          | inl retryable ↦ elim (Bool-cases (attempt == policy.max_attempts)) [
            | inl last ↦
                rw (live, retryable, last)
                  (record {
                    requests_le = omega arith;
                    one_failure = omega arith;
                    retried = omega arith;
                    succeeded = λ a at. cc;
                  })
            | inr more ↦ rw (live, retryable, more) (rested-Counted again left m next _)
          ]
        ]
      ]

  attempts-Counted :
      (left attempt : ℕ) (m : RpcCounters) (w : W)
      → Counted left m (attempts context policy call left attempt m w)
  unfolding attempts
  attempts-Counted zero attempt m w = record {
    requests_le = omega arith;
    one_failure = omega arith;
    retried = omega arith;
    succeeded = λ a at. cc;
  }
  attempts-Counted (suc left) attempt m w = elim (Bool-cases (is_nil (context.limiter_wait w).0)) [
    | inl granted ↦ rw granted (
        answered-Counted (attempts context policy call left (attempt + 1)) left attempt m
          (λ after. attempts-Counted left (attempt + 1) _ after) _)
    | inr refused ↦ rw refused (record {
      requests_le = omega arith;
      one_failure = omega arith;
      retried = omega arith;
      succeeded = λ a at. cc;
    })
  ]

  -- A resilient call makes at most as many requests as the policy has attempts, counts at most one
  -- failure, and makes at most one request more than it counts retries; one that succeeds counts no
  -- failure and makes exactly one request more than it counts retries.
  pub execute_resilient_rpc-Counted :
      (m : RpcCounters) (w : W)
      → Counted policy.max_attempts m (execute_resilient_rpc context policy call m w)
  unfolding execute_resilient_rpc
  execute_resilient_rpc-Counted m w = attempts-Counted policy.max_attempts 1 m w

  -- A result that is a value, or an error that is not nil.
  abbrev pub Reported : Result A × RpcCounters × W → Type 0
  Reported r = r.0 ≢ err nil

  not_nil : (e : GoError) → is_nil e ≡ false → ◌≢◌ {A = Result A} (err e) (err nil)
  not_nil e h same = cc (h, strip e same)
    where
      strip : (e : GoError) → ◌≡◌ {A = Result A} (err e) (err nil) → e ≡ nil
      strip e same = cc

  answered-Reported :
      (again : RpcCounters → W → Result A × RpcCounters × W) (attempt : ℕ) (m : RpcCounters)
      → (attempt ≢ policy.max_attempts → (m' : RpcCounters) (w : W) → Reported (again m' w))
      → (answer : Result A × W) → ((e : GoError) → answer.0 ≡ err e → is_nil e ≡ false)
      → Reported (answered context policy call again attempt m answer)
  unfolding answered
  answered-Reported again attempt m next (ok a, w) real = λ h. cc
  answered-Reported again attempt m next (err e, w) real =
      elim (Bool-cases (is_nil (context.ctx_err w))) [
        | inr done ↦ rw done (not_nil (context.ctx_err w) done)
        | inl live ↦ elim (Bool-cases (is_retryable_rpc_error e)) [
          | inr permanent ↦ rw (live, permanent) (not_nil e (real e refl))
          | inl retryable ↦ elim (Bool-cases (attempt == policy.max_attempts)) [
            | inl last ↦ rw (live, retryable, last) (not_nil _ exhausted)
            | inr more ↦
                rw (live, retryable, more)
                  (pause (next (ne_of_beq attempt policy.max_attempts more))
                    (wait context policy attempt w))
          ]
        ]
      ]
    where
      exhausted :
          is_nil
            (new_domain_error temporary_dependency "RPC retry budget exhausted after %d attempts" e)
          ≡ false
      exhausted = is_nil-new_domain_error temporary_dependency _ e

      pause :
          ((m' : RpcCounters) (w : W) → Reported (again m' w))
          → (slept : GoError × W)
          → Reported (rested context policy call again (retry_counted m) slept)
      pause next (e, w) = elim (Bool-cases (is_nil e)) [
        | inl fine ↦ rw fine (next _ w)
        | inr stopped ↦ rw stopped (not_nil e stopped)
      ]

  attempts-Reported :
      (left attempt : ℕ) (m : RpcCounters) (w : W)
      → ((w : W) (e : GoError) → (call w).0 ≡ err e → is_nil e ≡ false)
      → attempt + left ≡ policy.max_attempts + 1
      → attempt ≤ policy.max_attempts
      → Reported (attempts context policy call left attempt m w)
  unfolding attempts
  attempts-Reported zero attempt m w real sum low = absurd (omega arith)
  attempts-Reported (suc left) attempt m w real sum low =
      elim (Bool-cases (is_nil (context.limiter_wait w).0)) [
        | inl granted ↦ rw granted (
            answered-Reported (attempts context policy call left (attempt + 1)) attempt _
              (λ more m' after.
                attempts-Reported left (attempt + 1) m' after real (omega arith) (omega arith))
              _ (λ e at. real _ e at))
        | inr refused ↦ rw refused (not_nil _ refused)
      ]

  -- With at least one attempt and a call that never fails with a nil error, a resilient call never ends
  -- without a value and without an error.
  execute_resilient_rpc-Reported :
      (m : RpcCounters) (w : W)
      → 0 < policy.max_attempts
      → ((w : W) (e : GoError) → (call w).0 ≡ err e → is_nil e ≡ false)
      → Reported (execute_resilient_rpc context policy call m w)
  unfolding execute_resilient_rpc
  execute_resilient_rpc-Reported m w some_attempt real =
      attempts-Reported policy.max_attempts 1 m w real (omega arith) (omega arith)
