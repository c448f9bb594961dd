-- ===== src/Tests/Canceling.antt =====
-- A run of the concurrent indexer that is canceled behind its first block.
use chain_watch.Prelude.{
  ◌≡◌, ◌≤◌, ◌+◌, ◌*◌, suc, ◌-◌, refl, sym, ap, ℕ, [], lookup, insert, delete_where, arith,
}
use chain_watch.Errors.{Result, ok, err, sentinel, canceled as context_canceled}
use chain_watch.Effects.{◌>>=◌}
use chain_watch.Domain.{BlockTransferIndex}
use chain_watch.Indexer.{BlockPersistence, Start, validate_parent_hash}
use chain_watch.Indexer.History.{KeepsHistory}
use chain_watch.Indexer.Concurrent.{
  Collector, waiting, System, started, fetch_index, process_block, receive, drain, commit_next,
  commit, advance, after_send, send, fetch, deliver, collect,
}
use chain_watch.Indexer.Concurrent.Rounds.{IsSnapshot}
use chain_watch.Indexer.Concurrent.Terminates.{steps_left}
use chain_watch.Indexer.Concurrent.Canceling.{
  Cancelable, canceled, CancelStep, go_on, cancel, CancelRun, begin, step,
}
use chain_watch.Indexer.Concurrent.Canceling.Standing.{Numbered, Standing}
use chain_watch.Indexer.Concurrent.Canceling.Safety.{CancelRun-Standing}
use chain_watch.Indexer.Concurrent.Canceling.Returning.{CancelRun_returns}
use chain_watch.Tests.Node.{block_of, index_of}
use chain_watch.Tests.Recording.{Log, log_node, log_persistence}
use chain_watch.Tests.Chain.{log_persistence-KeepsHistory}

abbrev answer : ℕ → Result BlockTransferIndex
answer n = ok (index_of (block_of n))

log_node-IsSnapshot : IsSnapshot answer log_node
unfolding fetch_index ◌>>=◌
log_node-IsSnapshot = record { answers = λ n w. refl }

same_index : (a b : BlockTransferIndex) → ok a ≡ ok b → a ≡ b
same_index a b e = cc

answer-Numbered : (n : ℕ) → Numbered n (answer n)
answer-Numbered n index e =
    ap (λ (i : BlockTransferIndex). i.block_number)
      (sym (same_index (index_of (block_of n)) index e))

-- Under the canceled context every save fails.
abbrev cut : BlockPersistence Log
cut = record {
  load = λ w. (err (sentinel context_canceled), w);
  save_indexed_block = λ index w. (err (sentinel context_canceled), w);
}

cut-KeepsHistory : KeepsHistory (λ (w : Log). w) cut
cut-KeepsHistory = record {
  load_keeps = λ w. refl;
  save_commits = λ index w e. cc;
  failed_save_keeps = λ index w e failed. refl;
}

abbrev five : Start
five = record { next_block = 5; expected_parent_hash = "" }

canceled_run :
    (s : System Log) × (c : Collector) × CancelRun log_node log_persistence cut
      (sentinel context_canceled)
      1
      6
      (started five [])
      5
      (canceled s)
    × (s.collector ≡ waiting c)
unfolding started process_block fetch_index receive drain commit_next commit advance
    validate_parent_hash after_send lookup insert delete_where ◌>>=◌
canceled_run = (
  _,
  _,
  step
      (step
        (step
          (step (step begin (go_on _ _ (send _ 5 refl (omega arith))))
            (go_on _ _ (fetch _ [] 5 [] refl)))
          (go_on _ _ (deliver _ [] _ [] refl (omega arith))))
        (go_on _ _ (collect _ _ [] _ refl refl)))
      (cancel _),
  refl,
)

CancelRun-Standing_example : Standing five 6 [] canceled_run.0.collector canceled_run.0.world
CancelRun-Standing_example =
    CancelRun-Standing log_node-IsSnapshot answer-Numbered (λ w. w) five 6 (omega arith)
      log_persistence cut log_persistence-KeepsHistory cut-KeepsHistory (sentinel context_canceled)
      [] (omega arith) canceled_run.2

CancelRun_returns_example :
    (5 + steps_left 6 canceled_run.0 ≤ 4 * suc (6 - 5) + 2)
    × ((t : Cancelable Log) × CancelStep log_node log_persistence cut
          (sentinel context_canceled)
          1
          6
          (canceled canceled_run.0)
          t)
CancelRun_returns_example =
    CancelRun_returns log_node-IsSnapshot answer-Numbered (λ w. w) five 6 (omega arith)
      log_persistence cut log_persistence-KeepsHistory cut-KeepsHistory (sentinel context_canceled)
      [] (omega arith) canceled_run.2 canceled_run.3
