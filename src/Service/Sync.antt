-- ===== src/Service/Sync.antt =====
-- What a sync leaves of the ledger.
use chain_watch.Prelude.{
  arith, ap, ◌<◌, ℕ, zero, suc, ◌+◌, ◌≡◌, ◌^◌, ◌<◌, refl, ◌||◌, ◌==◌, nat_eq, Bool-cases, inl, inr,
}
use chain_watch.Errors.{GoError, is, is_nil, Result, ok, err, canceled, deadline_exceeded}
use chain_watch.Effects.{Action}
use chain_watch.Effects.Ends.{Ends, Ends-ok, Ends-err}
use chain_watch.Blockchain.{Block, Blockchain, process_block}
use chain_watch.Blockchain.Balances.{total}
use chain_watch.Blockchain.Ledger.{Accepted, process_block-Ends}
use chain_watch.Service.{
  ServiceClient, RetrySettings, waited, after_answer, fetch_attempts, fetch_latest_block_with_retry,
  after_fetch, processed, sync_latest_block,
}

-- A block that the client has answered with, at some time.
pub record Answered {W : Type 0} (client : ServiceClient W) (block : Block) : Type 0 where
  pub at : W
  pub answer : (client.get_latest_block at).0 ≡ ok block

-- What a sync from the world `w` left: a block of the client on the ledger; or the ledger as it was with
-- an error, where the ledger refuses the client's block or where the client fails at once.
pub data Synced {W : Type 0} (client : ServiceClient W) (w : W) (before : Blockchain)
    (r : Result (Unit {0}) × W × Blockchain) : Type 0 where
  accepted :
      (block : Block)
      → Answered client block
      → Accepted block before r.2
      → r.0 ≡ ok tt
      → Synced client w before r
  refused :
      (block : Block) (x e : GoError)
      → Answered client block
      → (process_block block before).0 ≡ err x
      → r.0 ≡ err e
      → r.2 ≡ before
      → Synced client w before r
  failed :
      (x e : GoError)
      → (client.get_latest_block w).0 ≡ err x
      → r.0 ≡ err e
      → r.2 ≡ before
      → Synced client w before r

module _ {W : Type 0} (client : ServiceClient W) (settings : RetrySettings) where
  Answered-Ends :
      (again : Action W Block) (attempt : ℕ) (w : W)
      → ((after : W) → Ends (λ block end. Answered client block) (λ end. Unit) (again after))
      → (r : Result Block × W) → ((block : Block) → r.0 ≡ ok block → Answered client block)
      → Ends
          (λ block end. Answered client block)
          (λ end. Unit)
          (after_answer client settings again attempt r)
  unfolding after_answer
  Answered-Ends again attempt w next (ok block, after) from = Ends-ok block after (from block refl)
  Answered-Ends again attempt w next (err e, after) from =
      elim (Bool-cases (is e canceled || is e deadline_exceeded)) [
        | inl stopped ↦ rw stopped (Ends-err _ _ tt)
        | inr other ↦ elim (Bool-cases (attempt == settings.max_attempts)) [
          | inl last ↦ rw (other, last) (Ends-err _ _ tt)
          | inr more ↦ rw (other, more) (rest (client.wait _ after))
        ]
      ]
    where
      rest :
          (slept : GoError × W)
          → Ends
              (λ block end. Answered client block)
              (λ end. Unit)
              (waited client settings again slept)
      rest (x, end) = elim (Bool-cases (is_nil x)) [
        | inl fine ↦ rw fine (next end)
        | inr done ↦ rw done (Ends-err _ _ tt)
      ]

  fetch_attempts-Ends :
      (left attempt : ℕ) (w : W)
      → Ends
          (λ block end. Answered client block)
          (λ end. Unit)
          (fetch_attempts client settings left attempt w)
  unfolding fetch_attempts
  fetch_attempts-Ends zero attempt w = Ends-err _ w tt
  fetch_attempts-Ends (suc left) attempt w =
      Answered-Ends (fetch_attempts client settings left (attempt + 1)) attempt w
        (λ after. fetch_attempts-Ends left (attempt + 1) after) (client.get_latest_block w)
        (λ block e. record { at = w; answer = e })

  after_answer-err :
      (again : Action W Block) (attempt : ℕ) (r : Result Block × W) (e : GoError)
      → (after_answer client settings again attempt r).0 ≡ err e
      → (x : GoError) × (r.0 ≡ err x)
  unfolding after_answer
  after_answer-err again attempt (ok block, w) e h = cc
  after_answer-err again attempt (err x, w) e h = (x, refl)

  -- The first call of the client fails where no block is fetched.
  first_failed :
      (left attempt : ℕ) (w : W) (e : GoError)
      → 0 < left
      → (fetch_attempts client settings left attempt w).0 ≡ err e
      → (x : GoError) × ((client.get_latest_block w).0 ≡ err x)
  unfolding fetch_attempts
  first_failed zero attempt w e some_left h = absurd (omega arith)
  first_failed (suc left) attempt w e some_left h =
      after_answer-err (fetch_attempts client settings left (attempt + 1)) attempt
        (client.get_latest_block w) e h

  ledger-Synced :
      (w : W) (bc : Blockchain) (block : Block) (after : W)
      → Answered client block
      → (r : Result Unit × Blockchain) → process_block block bc ≡ r
      → Ends (λ u end. Accepted block bc end) (λ end. end ≡ bc) r
      → Synced client w bc (processed client settings after r)
  ledger-Synced w bc block after answer (ok u, end) at h =
      accepted block answer (h.returns u refl) refl
  ledger-Synced w bc block after answer (err e, end) at h =
      refused block e _ answer (ap (λ r. r.0) at) refl (h.fails e refl)

  fetched-Synced :
      (w : W) (bc : Blockchain)
      → total bc.balances < 2 ^ 64
      → (r : Result Block × W)
      → ((e : GoError) → r.0 ≡ err e → (x : GoError) × ((client.get_latest_block w).0 ≡ err x))
      → Ends (λ block end. Answered client block) (λ end. Unit) r
      → Synced client w bc (after_fetch client settings bc r)
  fetched-Synced w bc fits (err e, after) why h =
      let (x, first) = why e refl in failed x _ first refl refl
  fetched-Synced w bc fits (ok block, after) why h =
      ledger-Synced w bc block after (h.returns block refl) (process_block block bc) refl
        (process_block-Ends block bc fits)

  -- With at least one attempt and a total of the balances below 2^64, SyncLatestBlock either appends a
  -- block that the client answered with, each of whose transactions was new, is marked as processed and,
  -- one after the other, moved its value from its sender to its receiver, the total of the balances being
  -- kept; or returns an error and leaves
  -- the ledger as it was, because the ledger refuses the block of the client or because already the
  -- first call of the client fails.
  pub sync_latest_block-Synced :
      (w : W) (bc : Blockchain)
      → 0 < settings.max_attempts
      → total bc.balances < 2 ^ 64
      → Synced client w bc (sync_latest_block client settings w bc)
  unfolding sync_latest_block fetch_latest_block_with_retry
  sync_latest_block-Synced w bc some_attempt fits =
      fetched-Synced w bc fits (fetch_attempts client settings settings.max_attempts 1 w)
        (λ e h. first_failed settings.max_attempts 1 w e some_attempt h)
        (fetch_attempts-Ends settings.max_attempts 1 w)
