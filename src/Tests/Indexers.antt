-- ===== src/Tests/Indexers.antt =====
-- The indexers and the reorg manager at concrete inputs.
use chain_watch.Prelude.{
  ℕ, ◌==◌, if◌then◌else◌, false, suc, ◌+◌, ◌*◌, ◌-◌, ◌≤◌, ◌≡◌, refl, none, some, [], ◌∷◌, nat_eq,
  pos, lookup, insert, delete_where, arith,
}
use chain_watch.Errors.{nil, ok}
use chain_watch.Effects.{◌>>=◌}
use chain_watch.Effects.Ends.{Ends}
use chain_watch.Domain.{BlockTransferIndex}
use chain_watch.Indexer.{Start, validate_parent_hash, resume}
use chain_watch.Indexer.Memory.{
  new_memory_checkpoint_store, bare_index, load, save_indexed_block, load_indexed_block_hash,
  rollback_to,
}
use chain_watch.Indexer.Memory.Laws.{memory_view, memory-Stores}
use chain_watch.Indexer.Memory.Verifying.{checkpoint_of, stored, reconcile-forgets}
use chain_watch.Indexer.Reorg.{
  verified, rolled_back, reconcile, find_ancestor, compare_block, roll_back,
}
use chain_watch.Indexer.Reorg.Laws.{SameView, Stores}
use chain_watch.Indexer.Reorg.Ancestor.{Reconciled, reconcile-Ends}
use chain_watch.Indexer.Sequential.{index_block, index_from, index_body, index_range}
use chain_watch.Indexer.Concurrent.Entry.{prepare, IndexRange, indexed, classify_concurrent}
use chain_watch.Indexer.Concurrent.{
  fetch_index, process_block, returned, commit, advance, commit_next, drain, receive, System,
  after_send, started, Step, Run, here, next, send, fetch, deliver, collect,
}
use chain_watch.Indexer.Concurrent.Range.{IndexRange-agrees}
use chain_watch.Indexer.Concurrent.Terminates.{steps_left, run_bounded, run_progresses}
use chain_watch.Indexer.History.{count_up, Whole, Stopped}
use chain_watch.Indexer.Sequential.Blocks.{index_all}
use chain_watch.Indexer.Sequential.Range.{behind, index_from-index_all}
use chain_watch.Indexer.Sequential.Commits.{index_range-Ends}
use chain_watch.Tests.Recording.{log_node, log_persistence, log_commits, log_node-AnswersNumbers}
use chain_watch.Tests.Node.{
  World, chain, block_of, index_of, node, canonical_node, memory, reorg_memory, node-IsSnapshot,
  node-FollowsChain, orphaned_store,
}

abbrev pub empty_store : World
empty_store = record { checkpoint = record { number = 0; hash = "" }; exists = false; indexes = [] }

-- Two blocks are indexed in order.
two_blocks :
    (index_range node memory 5 6 empty_store).0
    ≡ ok (index_of (block_of 5) ∷ index_of (block_of 6) ∷ [])
unfolding index_range index_from index_block validate_parent_hash resume load save_indexed_block
    ◌>>=◌ new_memory_checkpoint_store
two_blocks = refl

abbrev five : Start
five = record { next_block = 5; expected_parent_hash = "" }

pub one_block_run :
    (s : System World) × Run node memory 1 5 (started five empty_store) 4 s
    × (s.collector ≡ returned (ok (index_of (block_of 5) ∷ [])))
unfolding started process_block fetch_index receive drain commit_next commit advance
    validate_parent_hash save_indexed_block after_send lookup insert ◌>>=◌
one_block_run = (
  _,
  next
      (next (next (next here (send _ 5 refl (omega arith))) (fetch _ [] 5 [] refl))
        (deliver _ [] _ [] refl (omega arith)))
      (collect _ _ [] _ refl refl),
  refl,
)

-- The search goes below two orphaned blocks and rolls the store back to block 4.
reorg_found :
    (reconcile canonical_node reorg_memory 2 orphaned_store).0
    ≡ ok (rolled_back (record { number = 6; hash = "x6" }) (record { number = 4; hash = "h" }))
unfolding reconcile find_ancestor compare_block roll_back load load_indexed_block_hash rollback_to
    lookup delete_where ◌>>=◌
reorg_found = refl

reconcile-Ends_example :
    Ends
      (Reconciled memory_view chain 2 orphaned_store)
      (SameView memory_view orphaned_store)
      (reconcile canonical_node reorg_memory 2 orphaned_store)
reconcile-Ends_example = reconcile-Ends node-FollowsChain (memory-Stores nil) 2 orphaned_store

abbrev pub to_six : Start
to_six = record { next_block = 5; expected_parent_hash = "" }

index_range-Ends_example :
    Ends
      (λ blocks after. Whole (count_up 5 1) "" [] blocks after)
      (λ after. Stopped (count_up 5 1) "" [] after)
      (index_range log_node log_persistence 5 6 [])
unfolding resume
index_range-Ends_example =
    index_range-Ends log_commits log_node-AnswersNumbers 5 6 [] none to_six (omega arith)
      (omega arith) refl refl

index_from-index_all_example :
    index_from node memory 9 7 5 "" [] empty_store
    ≡ behind node memory [] (index_all node memory (count_up 5 2) "" empty_store)
index_from-index_all_example =
    index_from-index_all node memory 2 5 7 9 "" [] empty_store refl (omega arith) (omega arith)

run_bounded_example : 4 + steps_left 5 one_block_run.0 ≤ 4 * suc (5 - 5) + 1
run_bounded_example =
    run_bounded memory node-IsSnapshot 5 five empty_store (omega arith) (omega arith)
      one_block_run.1

run_progresses_example : (t : System World) × Step node memory 1 5 (started five empty_store) t
unfolding started
run_progresses_example =
    run_progresses memory node-IsSnapshot 5 five empty_store (omega arith) (omega arith)
      (omega arith) here refl

pub one_block_range :
    IndexRange node memory
      (pos 1)
      5
      5
      empty_store
      (classify_concurrent (ok (index_of (block_of 5) ∷ [])))
      one_block_run.0.world
unfolding prepare load resume ◌>>=◌ new_memory_checkpoint_store
one_block_range =
    indexed five empty_store 4 one_block_run.0 (ok (index_of (block_of 5) ∷ [])) refl
      one_block_run.1 one_block_run.2 refl refl

IndexRange-agrees_example :
    (classify_concurrent (ok (index_of (block_of 5) ∷ []))
      ≡ classify_concurrent (index_body node memory 5 5 empty_store).0)
    × (one_block_run.0.world ≡ (index_body node memory 5 5 empty_store).1)
IndexRange-agrees_example =
    IndexRange-agrees memory node-IsSnapshot 1 5 5 empty_store _ _ (omega arith) (omega arith)
      one_block_range

memory-Stores_example : Stores memory_view reorg_memory
memory-Stores_example = memory-Stores nil

abbrev last_block : BlockTransferIndex
last_block = record (index_of (block_of 6)) {
  transfers =
      record {
        token = "token";
        from = "ann";
        to = "bob";
        value = some (pos 7);
        transaction_hash = "t6";
        log_index = 0;
      }
      ∷ [];
}

reconcile-forgets_example :
    ((reconcile canonical_node reorg_memory 2 (stored nil canonical_node last_block empty_store)).0
      ≡ ok (verified (checkpoint_of last_block)))
    × ((reconcile canonical_node reorg_memory 2
          (stored nil canonical_node last_block empty_store)).1.checkpoint
        ≡ checkpoint_of last_block)
    × ((n : ℕ)
        → lookup n
            (reconcile canonical_node reorg_memory 2
              (stored nil canonical_node last_block empty_store)).1.indexes
          ≡ (if 6 == n
              then some (bare_index (checkpoint_of last_block))
              else lookup n empty_store.indexes))
reconcile-forgets_example =
    reconcile-forgets nil canonical_node 2 last_block (block_of 6) empty_store refl (omega arith)
      refl refl
