-- ===== src/Tests/Polling.antt =====
-- A polling cycle over the concurrent indexer with one worker.
use chain_watch.Prelude.{◌≤◌, ◌≡◌, sym, ap, [], ◌∷◌, nat_eq, pos, arith}
use chain_watch.Errors.{GoError, ok, err}
use chain_watch.Effects.Ends.{Ends}
use chain_watch.Domain.{BlockTransferIndex, ObservedBlock}
use chain_watch.Indexer.History.{AnswersNumbers}
use chain_watch.Indexer.Concurrent.Entry.{classify_concurrent}
use chain_watch.Continuous.{Sources, ContinuousIndexer, index_confirmed}
use chain_watch.Continuous.Cycles.{Cycled, index_confirmed-Ends}
use chain_watch.Tests.Node.{World, block_of, index_of, node, memory, node-IsSnapshot}
use chain_watch.Tests.Indexers.{empty_store, one_block_run, one_block_range}

same_ok : {A : Type 0} (a b : A) → ok a ≡ ok b → a ≡ b
same_ok a b e = cc

node-AnswersNumbers : AnswersNumbers node
node-AnswersNumbers = record {
  number_of_block = λ n w block e. ap (λ (b : ObservedBlock). b.number) (sym (same_ok _ block e));
  number_of_index =
      λ block w index e. ap (λ (i : BlockTransferIndex). i.block_number) (sym (same_ok _ index e));
}

-- The head is block 17, and block 5 is indexed by the run of one worker.
abbrev sources : Sources World
sources = record {
  get_latest_observed_block = λ w. (ok (block_of 17), w);
  index_range =
      λ start end w. (classify_concurrent (ok (index_of (block_of 5) ∷ [])), one_block_run.0.world);
}

abbrev poller : ContinuousIndexer
poller = record { start_block = 5; poll_interval = pos 1000; confirmation_depth = 12 }

index_confirmed-Ends_example :
    Ends
      (λ blocks after. Cycled sources poller (block_of 17) empty_store blocks)
      (λ after. (17 ≤ 17) × ((e : GoError) × ((sources.index_range 5 5 empty_store).0 ≡ err e)))
      (index_confirmed sources poller (block_of 17) empty_store)
index_confirmed-Ends_example =
    index_confirmed-Ends memory node-IsSnapshot node-AnswersNumbers sources poller 1 (block_of 17)
      empty_store (omega arith) (omega arith) one_block_range
