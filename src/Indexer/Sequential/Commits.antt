-- ===== src/Indexer/Sequential/Commits.antt =====
-- `IndexRange` of the sequential indexer over the whole range.
use chain_watch.Prelude.{
  ℕ, suc, ◌-◌, ◌^◌, ◌≤◌, ◌<◌, ◌≡◌, refl, false, Option, some, List, [], ltb, arith,
}
use chain_watch.Errors.{Result, ok, err}
use chain_watch.Effects.Ends.{Ends, Ends-wrapping, Ends-classifying, Ends-bind}
use chain_watch.Domain.{BlockTransferIndex, BlockCheckpoint}
use chain_watch.Indexer.{TransferBlockClient, BlockPersistence, Start, resume}
use chain_watch.Indexer.Resume.{resume_bounds}
use chain_watch.Indexer.History.{AnswersNumbers, Commits, count_up, Whole, Stopped}
use chain_watch.Indexer.Sequential.{index_start, index_range}
use chain_watch.Indexer.Sequential.Blocks.{index_all-Ends}
use chain_watch.Indexer.Sequential.Range.{behind, index_from-index_all}

module _ {W : Type 0} {client : TransferBlockClient W} {persistence : BlockPersistence W}
    (commits : Commits client persistence) (answers : AnswersNumbers client) where
  open commits use {history}

  behind_nil : (r : Result (List BlockTransferIndex) × W) → behind client persistence [] r ≡ r
  behind_nil (ok rest, w) = refl
  behind_nil (err e, w) = refl

  index_start-Ends :
      (s : Start) (end : ℕ) (w : W)
      → s.next_block ≤ end
      → end < 2 ^ 64
      → Ends
          (λ blocks after.
            Whole
              (count_up s.next_block (end - s.next_block))
              s.expected_parent_hash
              (history w)
              blocks
              (history after))
          (λ after.
            Stopped
              (count_up s.next_block (end - s.next_block))
              s.expected_parent_hash
              (history w)
              (history after))
          (index_start client persistence end (some s) w)
  unfolding index_start
  index_start-Ends s end w below fits =
      rw
        (
          index_from-index_all client persistence (end - s.next_block) s.next_block end
              (suc (end - s.next_block)) s.expected_parent_hash [] w (omega arith) fits
              (omega arith),
          behind_nil,
        )
        (index_all-Ends commits answers (count_up s.next_block (end - s.next_block))
          s.expected_parent_hash w)

  load-Ends :
      {E : W → Type 0} (w : W) (found : Option BlockCheckpoint)
      → (persistence.load w).0 ≡ ok found
      → Ends (λ f after. (f ≡ found) × (history after ≡ history w)) E (persistence.load w)
  load-Ends w found loaded = record {
    returns = λ f got. (cc, commits.history_load w);
    fails = λ e failed. cc;
  }

  -- From a checkpoint that leaves blocks to index, a range that is valid commits behind what was
  -- committed before: if it returns, exactly the blocks from the resumed number to the end, in order,
  -- and returns them; if it fails, those of a proper prefix of these numbers. In both cases
  -- each block names the hash of the one before it as its parent, and the first the expected
  -- parent hash that `resume` gives, except where one of the two hashes is empty.
  pub index_range-Ends :
      (start end : ℕ) (w : W) (found : Option BlockCheckpoint) (s : Start)
      → start ≤ end
      → end < 2 ^ 64
      → (persistence.load w).0 ≡ ok found
      → resume found start end ≡ some s
      → Ends
          (λ blocks after.
            Whole
              (count_up s.next_block (end - s.next_block))
              s.expected_parent_hash
              (history w)
              blocks
              (history after))
          (λ after.
            Stopped
              (count_up s.next_block (end - s.next_block))
              s.expected_parent_hash
              (history w)
              (history after))
          (index_range client persistence start end w)
  unfolding index_range
  index_range-Ends start end w found s range fits loaded left =
      let valid : ltb end start ≡ false = ground arith in
      let (above, below) = resume_bounds found start end s range fits left in
      rw valid (
        Ends-classifying _ _ _ w (
          Ends-bind (λ f after. (f ≡ found) × (history after ≡ history w)) _ _ w
            (Ends-wrapping _ _ w (load-Ends w found loaded))
            λ f w₁ (same, kept). rw (same, left, ← kept) (index_start-Ends s end w₁ below fits)))
