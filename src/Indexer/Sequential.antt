-- ===== src/Indexer/Sequential.antt =====
-- internal/indexer/sequential_indexer.go.
pub mod Blocks
pub mod Range
pub mod Commits
pub mod Numbers
use chain_watch.Prelude.{
  ℕ, zero, suc, ◌+◌, ◌-◌, ◌*◌, ◌≤◌, ◌<◌, ◌≡◌, refl, String, Bool, true, false, Option, none, some,
  List, [], ◌∷◌, ◌++◌, ◌==◌, nat_eq, ltb, if◌then◌else◌, arith,
}
use chain_watch.Errors.{validation, indexing, invalid_block_range, sentinel, text, new_domain_error}
use chain_watch.Effects.{Action, pure, fail, give, wrapping, classifying, ◌>>=◌, ◌>>◌}
use chain_watch.Domain.{BlockHash, BlockTransferIndex, u64}
use chain_watch.Indexer.{TransferBlockClient, BlockPersistence, validate_parent_hash, Start, resume}

module _ {W : Type 0} (client : TransferBlockClient W) (persistence : BlockPersistence W) where
  -- The body of the loop for one block.
  unfoldable pub index_block : ℕ → BlockHash → Action W BlockTransferIndex
  index_block block_number expected = do
    block ← wrapping "failed to fetch block %d" (client.get_observed_block_by_number block_number)
    index ← wrapping "failed to index block %d" (client.get_erc20_transfers_by_block block)
    give (validate_parent_hash index.block_number index.parent_hash expected)
    wrapping "failed to persist indexed block %d" (persistence.save_indexed_block index)
    pure index

  -- `for blockNumber := nextBlock; ; blockNumber++`, left by the test on `endBlock`.
  unfoldable pub index_from :
      ℕ → ℕ → ℕ → BlockHash → List BlockTransferIndex → Action W (List BlockTransferIndex)
  index_from zero end block_number expected results = fail (text "out of fuel")
  index_from (suc fuel) end block_number expected results = do
    index ← index_block block_number expected
    let done = results ++ index ∷ []
    let rest = index_from fuel end (u64 (block_number + 1)) index.block_hash done
    if block_number == end then pure done else rest

  unfoldable pub index_start : ℕ → Option Start → Action W (List BlockTransferIndex)
  index_start end none = pure []
  index_start end (some start) =
      index_from (suc (end - start.next_block)) end start.next_block start.expected_parent_hash []

  -- The body of IndexRange; its error is classified behind it.
  unfoldable pub index_body : ℕ → ℕ → Action W (List BlockTransferIndex)
  unfolding index_start
  index_body start end =
      if ltb end start
      then fail (new_domain_error validation "validate block range" (sentinel invalid_block_range))
      else do
        checkpoint ← wrapping "failed to load checkpoint" persistence.load
        index_start end (resume checkpoint start end)

  unfoldable pub index_range : ℕ → ℕ → Action W (List BlockTransferIndex)
  unfolding index_body
  index_range start end =
      classifying indexing "index block range sequentially" (index_body start end)
