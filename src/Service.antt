-- ===== src/Service.antt =====
-- internal/service: the sync of the ledger with the latest block, with retries.
pub mod Sync
use chain_watch.Prelude.{
  ℕ, zero, suc, ◌+◌, ◌*◌, String, Bool, true, false, ◌||◌, ◌==◌, nat_eq, if◌then◌else◌,
}
use chain_watch.Errors.{
  GoError, nil, is, is_nil, Result, ok, err, wrap, wrapped, canceled, deadline_exceeded,
}
use chain_watch.Effects.{Action}
use chain_watch.Blockchain.{Block, Blockchain, process_block}

-- BlockchainClient, and the wait between two attempts: it gives nil, or `ctx.Err()` where the context
-- is done first. The delay is in nanoseconds.
pub record ServiceClient (W : Type 0) : Type 0 where
  pub get_latest_block : Action W Block
  pub wait : ℕ → W → GoError × W

pub record RetrySettings : Type 0 where
  pub max_attempts : ℕ
  pub retry_delay : ℕ

-- Those of NewChainWatchService.
abbrev pub default_settings : RetrySettings
default_settings = record { max_attempts = 3; retry_delay = 50000000 }

module _ {W : Type 0} (client : ServiceClient W) (settings : RetrySettings) where
  abbrev pub waited : Action W Block → GoError × W → Result Block × W
  waited again (e, w) = if is_nil e then again w else (err e, w)

  -- A round of the loop, behind the client's answer.
  unfoldable pub after_answer : Action W Block → ℕ → Result Block × W → Result Block × W
  after_answer again attempt (ok block, w) = (ok block, w)
  after_answer again attempt (err e, w) =
      if is e canceled || is e deadline_exceeded
      then (err e, w)
      else if attempt == settings.max_attempts
      then (err (wrapped "failed after %d attempts" e), w)
      else waited again (client.wait (settings.retry_delay * attempt) w)

  -- The loop over `attempt`, by the attempts that are left.
  unfoldable pub fetch_attempts : ℕ → ℕ → Action W Block
  fetch_attempts zero attempt w = (err (wrapped "failed after %d attempts" nil), w)
  fetch_attempts (suc left) attempt w =
      let again = fetch_attempts left (attempt + 1) in
      after_answer again attempt (client.get_latest_block w)

  unfoldable pub fetch_latest_block_with_retry : Action W Block
  fetch_latest_block_with_retry = fetch_attempts settings.max_attempts 1

  abbrev pub processed : W → Result (Unit {0}) × Blockchain → Result (Unit {0}) × W × Blockchain
  processed w (r, bc) = (wrap "failed to process latest block" r, w, bc)

  abbrev pub after_fetch : Blockchain → Result Block × W → Result (Unit {0}) × W × Blockchain
  after_fetch bc (err e, w) = (err (wrapped "failed to fetch latest block" e), w, bc)
  after_fetch bc (ok block, w) = processed w (process_block block bc)

  unfoldable pub sync_latest_block : W → Blockchain → Result (Unit {0}) × W × Blockchain
  sync_latest_block w bc = after_fetch bc (fetch_latest_block_with_retry w)
