-- ===== src/Rpc/Client/Committing.antt =====
-- Retries commit nothing: the history that a persistence keeps is moved by its saves alone.
use chain_watch.Prelude.{ℕ, zero, suc, ◌+◌, ◌≡◌, ◌∙◌, refl, Bool-cases, inl, inr, ◌==◌, nat_eq}
use chain_watch.Errors.{GoError, Result, ok, err, is_nil}
use chain_watch.Effects.{Action}
use chain_watch.Effects.Keeping.{Keeps}
use chain_watch.Rpc.{
  RpcContext, RetryPolicy, RpcCounters, rested, answered, attempts, execute_resilient_rpc,
  is_retryable_rpc_error,
}
use chain_watch.Rpc.Client.{
  EthereumBackend, resilient, resilient_client, block_client, beside, beside_persistence,
}
use chain_watch.Indexer.{BlockPersistence}
use chain_watch.Indexer.History.{Commits}

-- Waiting for the limiter and sleeping leave the view alone.
pub record QuietContext {W V : Type 0} (view : W → V) (context : RpcContext W) : Type 0 where
  pub limiter_keeps : (w : W) → view (context.limiter_wait w).1 ≡ view w
  pub sleep_keeps : (delay : ℕ) (w : W) → view (context.sleep delay w).1 ≡ view w

module _ {W V A : Type 0} (view : W → V) (context : RpcContext W)
    (quiet : QuietContext view context) (policy : RetryPolicy) (call : Action W A) where
  rested-Keeps :
      (again : RpcCounters → W → Result A × RpcCounters × W) (m : RpcCounters) (before : V)
      → ((m' : RpcCounters) (w : W) → view (again m' w).2 ≡ view w)
      → (slept : GoError × W) → view slept.1 ≡ before
      → view (rested context policy call again m slept).2 ≡ before
  rested-Keeps again m before next (e, w) kept = elim (Bool-cases (is_nil e)) [
    | inl fine ↦ rw fine (next m w ∙ kept)
    | inr stopped ↦ rw stopped kept
  ]

  answered-Keeps :
      (again : RpcCounters → W → Result A × RpcCounters × W) (attempt : ℕ) (m : RpcCounters)
      (before : V)
      → ((m' : RpcCounters) (w : W) → view (again m' w).2 ≡ view w)
      → (answer : Result A × W) → view answer.1 ≡ before
      → view (answered context policy call again attempt m answer).2 ≡ before
  unfolding answered
  answered-Keeps again attempt m before next (ok a, after) kept = kept
  answered-Keeps again attempt m before next (err e, after) kept =
      elim (Bool-cases (is_nil (context.ctx_err after))) [
        | inr done ↦ rw done kept
        | inl live ↦ elim (Bool-cases (is_retryable_rpc_error e)) [
          | inr permanent ↦ rw (live, permanent) kept
          | inl retryable ↦ elim (Bool-cases (attempt == policy.max_attempts)) [
            | inl last ↦ rw (live, retryable, last) kept
            | inr more ↦
                rw (live, retryable, more)
                  (rested-Keeps again _ before next _ (quiet.sleep_keeps _ after ∙ kept))
          ]
        ]
      ]

  attempts-Keeps :
      Keeps view call
      → (left attempt : ℕ) (m : RpcCounters) (w : W)
      → view (attempts context policy call left attempt m w).2 ≡ view w
  unfolding attempts
  attempts-Keeps h zero attempt m w = refl
  attempts-Keeps h (suc left) attempt m w = elim (Bool-cases (is_nil (context.limiter_wait w).0)) [
    | inl granted ↦ rw granted (
        answered-Keeps (attempts context policy call left (attempt + 1)) attempt _ (view w)
          (λ m' after. attempts-Keeps h left (attempt + 1) m' after) _
          (h (context.limiter_wait w).1 ∙ quiet.limiter_keeps w))
    | inr refused ↦ rw refused (quiet.limiter_keeps w)
  ]

  pub resilient-Keeps :
      Keeps view call
      → (world : RpcCounters × W) → view (resilient context policy call world).1.1 ≡ view world.1
  unfolding resilient execute_resilient_rpc
  resilient-Keeps h (m, w) = attempts-Keeps h policy.max_attempts 1 m w

-- A client that commits nothing still commits nothing behind retries, if waiting does not.
unfoldable pub resilient_commits :
    {W : Type 0} (context : RpcContext W) (policy : RetryPolicy) (next : EthereumBackend W)
    (persistence : BlockPersistence W) (commits : Commits (block_client next) persistence)
    → QuietContext commits.history context
    → Commits (block_client (resilient_client context policy next)) (beside_persistence persistence)
unfolding block_client resilient_client beside_persistence beside
resilient_commits context policy next persistence commits quiet = record {
  history = λ world. commits.history world.1;
  history_get_block = λ n.
      resilient-Keeps commits.history context quiet policy (next.get_observed_block_by_number n)
        (commits.history_get_block n);
  history_get_transfers = λ block.
      resilient-Keeps commits.history context quiet policy (next.get_erc20_transfers_by_block block)
        (commits.history_get_transfers block);
  history_load = λ world. commits.history_load world.1;
  history_save_ok = λ index world. commits.history_save_ok index world.1;
  history_save_err = λ index world. commits.history_save_err index world.1;
}
