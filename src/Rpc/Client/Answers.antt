-- ===== src/Rpc/Client/Answers.antt =====
-- What a resilient client answers is what the client behind it answers.
use chain_watch.Prelude.{ℕ, zero, suc, ◌+◌, ◌≡◌, refl, Bool-cases, inl, inr, ◌==◌, nat_eq}
use chain_watch.Errors.{GoError, Result, ok, err, is_nil}
use chain_watch.Effects.{Action}
use chain_watch.Rpc.{
  RpcContext, RetryPolicy, RpcCounters, rested, answered, attempts, execute_resilient_rpc,
  is_retryable_rpc_error,
}
use chain_watch.Rpc.Client.{EthereumBackend, resilient, resilient_client, block_client}
use chain_watch.Indexer.History.{AnswersNumbers}

module _ {W A : Type 0} (context : RpcContext W) (policy : RetryPolicy) (call : Action W A) where
  -- A value that is returned is one that the call returned.
  abbrev pub FromCall : Result A × RpcCounters × W → Type 0
  FromCall r = (a : A) → r.0 ≡ ok a → (asked : W) × ((call asked).0 ≡ ok a)

  no_value : (e : GoError) (a : A) → err e ≡ ok a → (asked : W) × ((call asked).0 ≡ ok a)
  no_value e a at = absurd (different a at)
    where
      different : (a : A) → err e ≡ ok a → ⊥
      different a at = cc

  rested-FromCall :
      (again : RpcCounters → W → Result A × RpcCounters × W) (m : RpcCounters)
      → ((m' : RpcCounters) (w : W) → FromCall (again m' w))
      → (slept : GoError × W) → FromCall (rested context policy call again m slept)
  rested-FromCall again m next (e, w) = elim (Bool-cases (is_nil e)) [
    | inl fine ↦ rw fine (next m w)
    | inr stopped ↦ rw stopped (no_value e)
  ]

  answered-FromCall :
      (again : RpcCounters → W → Result A × RpcCounters × W) (attempt : ℕ) (m : RpcCounters) (w : W)
      → ((m' : RpcCounters) (w : W) → FromCall (again m' w))
      → (answer : Result A × W) → call w ≡ answer
      → FromCall (answered context policy call again attempt m answer)
  unfolding answered
  answered-FromCall again attempt m w next (ok a, after) at = λ b same. (w, rw at same)
  answered-FromCall again attempt m w next (err e, after) at =
      elim (Bool-cases (is_nil (context.ctx_err after))) [
        | inr done ↦ rw done (no_value _)
        | inl live ↦ elim (Bool-cases (is_retryable_rpc_error e)) [
          | inr permanent ↦ rw (live, permanent) (no_value _)
          | inl retryable ↦ elim (Bool-cases (attempt == policy.max_attempts)) [
            | inl last ↦ rw (live, retryable, last) (no_value _)
            | inr more ↦ rw (live, retryable, more) (rested-FromCall again _ next _)
          ]
        ]
      ]

  attempts-FromCall :
      (left attempt : ℕ) (m : RpcCounters) (w : W)
      → FromCall (attempts context policy call left attempt m w)
  unfolding attempts
  attempts-FromCall zero attempt m w = no_value _
  attempts-FromCall (suc left) attempt m w = elim (Bool-cases (is_nil (context.limiter_wait w).0)) [
    | inl granted ↦ rw granted (
        answered-FromCall (attempts context policy call left (attempt + 1)) attempt _
          (context.limiter_wait w).1 (λ m' after. attempts-FromCall left (attempt + 1) m' after) _
          refl)
    | inr refused ↦ rw refused (no_value _)
  ]

  resilient-FromCall :
      (world : RpcCounters × W) (a : A)
      → (resilient context policy call world).0 ≡ ok a
      → (asked : W) × ((call asked).0 ≡ ok a)
  unfolding resilient execute_resilient_rpc
  resilient-FromCall (m, w) a at = attempts-FromCall policy.max_attempts 1 m w a at

-- Where a client answers with the numbers that it was asked for, so does the resilient client in front
-- of it.
pub resilient_client-AnswersNumbers :
    {W : Type 0} (context : RpcContext W) (policy : RetryPolicy) (next : EthereumBackend W)
    → AnswersNumbers (block_client next)
    → AnswersNumbers (block_client (resilient_client context policy next))
unfolding block_client resilient_client
resilient_client-AnswersNumbers context policy next h = record {
  number_of_block = λ n world block at.
      let (asked, answer) =
        resilient-FromCall context policy (next.get_observed_block_by_number n) world block at in
      h.number_of_block n asked block answer;
  number_of_index = λ block world index at.
      let (asked, answer) =
        resilient-FromCall context policy (next.get_erc20_transfers_by_block block) world index
          at in
      h.number_of_index block asked index answer;
}
