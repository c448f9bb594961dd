-- ===== src/Indexer/Concurrent/Entry.antt =====
-- `IndexRange` of the concurrent indexer: the guards, the checkpoint, and the runs behind them.
use chain_watch.Prelude.{
  not_positive, ℕ, ◌≡◌, Option, none, some, List, [], nat_eq, ℤ, pos, negsuc, ltb, if◌then◌else◌,
}
use chain_watch.Errors.{
  GoError, Result, ok, err, classify, validation, indexing, invalid_block_range,
  invalid_worker_count, sentinel, new_domain_error,
}
use chain_watch.Effects.{Action, pure, fail, wrapping, ◌>>=◌}
use chain_watch.Domain.{BlockTransferIndex}
use chain_watch.Indexer.{TransferBlockClient, BlockPersistence, Start, resume}
use chain_watch.Indexer.Concurrent.{Run, System, started, returned}

abbrev pub workers : ℤ → ℕ
workers (pos n) = n
workers (negsuc n) = 0

-- IndexRange up to the start of the workers.
unfoldable pub prepare : {W : Type 0} → BlockPersistence W → ℤ → ℕ → ℕ → Action W (Option Start)
prepare persistence worker_count start end =
    if ltb end start
    then fail (new_domain_error validation "validate block range" (sentinel invalid_block_range))
    else if not_positive worker_count
    then fail (new_domain_error validation "validate worker count" (sentinel invalid_worker_count))
    else do
      checkpoint ← wrapping "failed to load checkpoint" persistence.load
      pure (resume checkpoint start end)

abbrev pub classify_concurrent : {A : Type 0} → Result A → Result A
classify_concurrent = classify indexing "index block range concurrently"

-- What IndexRange may return from the world `w`, with the world that it leaves.
pub data IndexRange {W : Type 0} (client : TransferBlockClient W) (persistence : BlockPersistence W)
    (worker_count : ℤ) (start end : ℕ) (w : W) (r : Result (List BlockTransferIndex)) (after : W)
    : Type 0 where
  refused :
      (e : GoError)
      → prepare persistence worker_count start end w ≡ (err e, after)
      → r ≡ classify_concurrent (err e)
      → IndexRange client persistence worker_count start end w r after
  up_to_date :
      prepare persistence worker_count start end w ≡ (ok none, after)
      → r ≡ ok []
      → IndexRange client persistence worker_count start end w r after
  indexed :
      (from : Start) (between : W) (k : ℕ) (s : System W)
      (outcome : Result (List BlockTransferIndex))
      → prepare persistence worker_count start end w ≡ (ok (some from), between)
      → Run client persistence (workers worker_count) end (started from between) k s
      → s.collector ≡ returned outcome
      → s.world ≡ after
      → r ≡ classify_concurrent outcome
      → IndexRange client persistence worker_count start end w r after
