-- ===== src/Indexer.antt =====
-- internal/indexer: the interfaces that the indexers take, the check of parent hashes
-- (reorg.go) and where a range resumes. One module below for each indexer and for the reorg manager.
pub mod Sequential
pub mod History
pub mod Reorg
pub mod Concurrent
pub mod Memory
pub mod Resume
use chain_watch.Prelude.{
  ℕ, ◌+◌, String, Bool, true, false, ◌||◌, Option, none, some, List, ◌==◌, string_eq, nat_eq, leb,
  if◌then◌else◌,
}
use chain_watch.Errors.{Sentinel, chain_reorg, text, Result, ok, err, new_domain_error, GoError}
use chain_watch.Effects.{Action}
use chain_watch.Domain.{BlockHash, BlockTransferIndex, BlockCheckpoint, ObservedBlock, u64}

-- The node: the calls are answered in a world that may change between them.
pub record TransferBlockClient (W : Type 0) : Type 0 where
  pub get_observed_block_by_number : ℕ → Action W ObservedBlock
  pub get_erc20_transfers_by_block : ObservedBlock → Action W BlockTransferIndex

-- Go's `(checkpoint, exists, err)` is a result of an option.
pub record BlockPersistence (W : Type 0) : Type 0 where
  pub load : Action W (Option BlockCheckpoint)
  pub save_indexed_block : BlockTransferIndex → Action W (Unit {0})

unfoldable pub validate_parent_hash : ℕ → BlockHash → BlockHash → Result (Unit {0})
validate_parent_hash block_number parent_hash expected =
    if parent_hash == "" || expected == "" || parent_hash == expected
    then ok tt
    else err (
        new_domain_error chain_reorg "validate parent hash for block %d"
          (text "parent hash %s does not match checkpoint hash %s"))

-- `nextBlock` and `expectedParentHash`, or `none` where nothing is left to index.
pub record Start : Type 0 where
  pub next_block : ℕ
  pub expected_parent_hash : BlockHash

hash_if_next : BlockCheckpoint → ℕ → BlockHash
hash_if_next checkpoint next = if u64 (checkpoint.number + 1) == next then checkpoint.hash else ""

unfoldable pub resume : Option BlockCheckpoint → ℕ → ℕ → Option Start
unfolding hash_if_next
resume none start end = some (record { next_block = start; expected_parent_hash = "" })
resume (some checkpoint) start end =
    if leb start checkpoint.number
    then if leb end checkpoint.number
      then none
      else some (record {
        next_block = u64 (checkpoint.number + 1);
        expected_parent_hash = hash_if_next checkpoint (u64 (checkpoint.number + 1));
      })
    else some (record { next_block = start; expected_parent_hash = hash_if_next checkpoint start })
