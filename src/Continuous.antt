-- ===== src/Continuous.antt =====
-- internal/indexer/continuous_indexer.go: indexing behind the head of the chain, again and again.
pub mod Cycles
use chain_watch.Prelude.{
  ℕ, zero, suc, ◌-◌, String, Bool, true, false, Option, none, some, List, [], ◌∷◌, ◌==◌, nat_eq,
  ltb, ℤ, not_positive, if◌then◌else◌,
}
use chain_watch.Errors.{GoError, nil, text, canceled, is, is_nil, Result, ok, err}
use chain_watch.Effects.{Action, pure, wrapping, ◌>>=◌}
use chain_watch.Domain.{BlockTransferIndex, ObservedBlock}

-- The node's head and the `RangeIndexer`.
pub record Sources (W : Type 0) : Type 0 where
  pub get_latest_observed_block : Action W ObservedBlock
  pub index_range : ℕ → ℕ → Action W (List BlockTransferIndex)

pub record ContinuousIndexer : Type 0 where
  pub start_block : ℕ
  pub poll_interval : ℤ
  pub confirmation_depth : ℕ

-- What the `select` of the loop takes next: the context is done, or the ticker fires.
pub data Wakeup : Type 0 where
  stop : Wakeup
  tick : Wakeup

module _ {W : Type 0} (sources : Sources W) (c : ContinuousIndexer) where
  -- A cycle behind the answer of the node.
  unfoldable pub index_confirmed : ObservedBlock → Action W (List BlockTransferIndex)
  index_confirmed latest =
      if ltb latest.number c.confirmation_depth
      then pure []
      else if ltb (latest.number - c.confirmation_depth) c.start_block
      then pure []
      else wrapping "failed to index through block %d"
          (sources.index_range c.start_block (latest.number - c.confirmation_depth))

  unfoldable pub run_cycle : Action W (List BlockTransferIndex)
  run_cycle =
      wrapping "failed to fetch latest block" sources.get_latest_observed_block >>= index_confirmed

  -- The handler is called on each block in turn; `none` is a nil handler.
  abbrev pub handle_all : (BlockTransferIndex → W → W) → List BlockTransferIndex → W → W
  handle_all handler [] w = w
  handle_all handler (index ∷ indexes) w = handle_all handler indexes (handler index w)

  abbrev pub handled :
      Option (BlockTransferIndex → W → W) → Result (List BlockTransferIndex) × W → GoError × W
  handled handler (err e, w) = (e, w)
  handled none (ok indexes, w) = (nil, w)
  handled (some handler) (ok indexes, w) = (nil, handle_all handler indexes w)

  unfoldable pub run_cycle_and_handle : Option (BlockTransferIndex → W → W) → W → GoError × W
  run_cycle_and_handle handler w = handled handler (run_cycle w)

  -- `Run` behind a cycle: a canceled one ends it without an error.
  abbrev pub after_cycle : (W → Option GoError × W) → GoError × W → Option GoError × W
  after_cycle again (e, w) =
      if is_nil e then again w else if is e canceled then (some nil, w) else (some e, w)

  -- The loop, by what wakes it up; `none` while it still waits behind the last wakeup.
  unfoldable pub poll : Option (BlockTransferIndex → W → W) → List Wakeup → W → Option GoError × W
  poll handler [] w = (none, w)
  poll handler (stop ∷ rest) w = (some nil, w)
  poll handler (tick ∷ rest) w =
      let again = poll handler rest in after_cycle again (run_cycle_and_handle handler w)

  unfoldable pub run : Option (BlockTransferIndex → W → W) → List Wakeup → W → Option GoError × W
  run handler wakeups w =
      if not_positive c.poll_interval
      then (some (text "poll interval must be greater than zero"), w)
      else after_cycle (poll handler wakeups) (run_cycle_and_handle handler w)
