-- ===== src/Indexer/Concurrent/Canceling/Returning.antt =====
-- A run that may be canceled comes to an end, and not before IndexRange returns.
use chain_watch.Prelude.{
  ℕ, suc, ◌+◌, ◌-◌, ◌*◌, ◌^◌, ◌≤◌, ◌<◌, ◌≡◌, refl, sym, ap, ◌∙◌, Option, none, some, List, [], ◌∷◌,
  nat_eq, length, arith,
}
use chain_watch.Errors.{GoError, Result}
use chain_watch.Domain.{BlockTransferIndex}
use chain_watch.Indexer.{TransferBlockClient, BlockPersistence, Start}
use chain_watch.Indexer.History.{KeepsHistory}
use chain_watch.Indexer.Concurrent.{BlockResult, Collector, waiting, System, started, collect}
use chain_watch.Indexer.Concurrent.Rounds.{IsSnapshot}
use chain_watch.Indexer.Concurrent.Terminates.{
  steps_left, to_send, still_waiting, length_middle, steps_left-Step,
}
use chain_watch.Indexer.Concurrent.Canceling.{
  Cancelable, live, canceled, CancelStep, go_on, cancel, go_on_canceled, stop_producer, cut_short,
  leave, close_canceled, CancelRun, begin, step, system_of,
}
use chain_watch.Indexer.Concurrent.Canceling.Standing.{Numbered}
use chain_watch.Indexer.Concurrent.Canceling.Safety.{run-Safe}

-- The cancellation is one step more.
abbrev pub steps_at_most : {W : Type 0} → ℕ → Cancelable W → ℕ
steps_at_most end (live s) = suc (steps_left end s)
steps_at_most end (canceled s) = steps_left end s

module _ {W : Type 0} {client : TransferBlockClient W} (persistence cut : BlockPersistence W)
    (ctx_error : GoError) (end : ℕ) (fits : end < 2 ^ 64) where
  CancelStep-steps_at_most :
      {worker_count : ℕ} {s t : Cancelable W}
      → CancelStep client persistence cut ctx_error worker_count end s t
      → ((p : ℕ) → (system_of s).producer ≡ some p → p ≤ end)
      → steps_at_most end t < steps_at_most end s
  CancelStep-steps_at_most (go_on s t moved) low =
      omega (arith, steps_left-Step persistence end fits moved low)
  CancelStep-steps_at_most (cancel s) low = omega arith
  CancelStep-steps_at_most (go_on_canceled s t busy moved) low =
      steps_left-Step cut end fits moved low
  CancelStep-steps_at_most (stop_producer s n at) low = omega (arith, ap (to_send end) at)
  CancelStep-steps_at_most (cut_short s before n behind e at) low =
      omega (arith, ap length at, length_middle before n behind)
  CancelStep-steps_at_most (leave s before r behind at) low =
      omega (arith, ap length at, length_middle before r behind)
  CancelStep-steps_at_most (close_canceled s c idle at) low = omega (arith, ap still_waiting at)

  -- A canceled run that waits can go on.
  canceled_progresses :
      (worker_count : ℕ) (s : System W) (c : Collector)
      → s.collector ≡ waiting c
      → (t : Cancelable W) × CancelStep client persistence cut ctx_error worker_count end
          (canceled s)
          t
  canceled_progresses worker_count s c at =
      by_queue s.queue refl s.finished refl s.fetching refl s.producer refl
    where
      not_empty : (r : BlockResult) (rest : List BlockResult) → r ∷ rest ≡ [] → ⊥
      not_empty r rest e = cc

      by_queue :
          (queue : List BlockResult)
          → s.queue ≡ queue
          → (finished : List BlockResult) → s.finished ≡ finished
          → (fetching : List ℕ) → s.fetching ≡ fetching
          → (producer : Option ℕ) → s.producer ≡ producer
          → (t : Cancelable W) × CancelStep client persistence cut ctx_error worker_count end
              (canceled s)
              t
      by_queue (r ∷ rest) q finished f fetching g producer p = (
        _,
        go_on_canceled s _ (λ idle. not_empty r rest (sym q ∙ idle.empty_queue))
            (collect s r rest c q at),
      )
      by_queue [] q (r ∷ rest) f fetching g producer p = (_, leave s [] r rest f)
      by_queue [] q [] f (n ∷ rest) g producer p = (_, cut_short s [] n rest ctx_error g)
      by_queue [] q [] f [] g (some n) p = (_, stop_producer s n p)
      by_queue [] q [] f [] g none p = (
        _,
        close_canceled s c
            (record { no_producer = p; none_fetching = g; none_finished = f; empty_queue = q }) at,
      )

module _ {W : Type 0} {answer : ℕ → Result BlockTransferIndex} {client : TransferBlockClient W}
    (snapshot : IsSnapshot answer client) (numbered : (n : ℕ) → Numbered n (answer n))
    (history : W → List BlockTransferIndex) (start : Start) (end : ℕ) (fits : end < 2 ^ 64)
    (persistence cut : BlockPersistence W) (store : KeepsHistory history persistence)
    (cut_store : KeepsHistory history cut) (ctx_error : GoError) (w : W)
    (range : start.next_block ≤ end) where
  run_shortens :
      {worker_count k : ℕ} {x : Cancelable W}
      → CancelRun client persistence cut ctx_error worker_count end (started start w) k x
      → k + steps_at_most end x ≤ 4 * suc (end - start.next_block) + 2
  unfolding started
  run_shortens begin = omega arith
  run_shortens (step {s = s} run moved) = omega (
    arith,
    run_shortens run,
    CancelStep-steps_at_most persistence cut ctx_error end fits moved
        (run-Safe snapshot numbered history start end fits persistence cut store cut_store ctx_error
          w range run).producer_low,
  )

  -- Once the context is canceled IndexRange returns: while its loop still waits some step is possible, with
  -- no call that has to succeed, and all the steps of the run, those before the cancellation
  -- included, are at most four for each block of the range, and two more.
  pub CancelRun_returns :
      {worker_count k : ℕ} {s : System W} {c : Collector}
      → CancelRun client persistence cut ctx_error worker_count end (started start w) k (canceled s)
      → s.collector ≡ waiting c
      → (k + steps_left end s ≤ 4 * suc (end - start.next_block) + 2)
        × ((t : Cancelable W) × CancelStep client persistence cut ctx_error worker_count end
              (canceled s)
              t)
  CancelRun_returns {worker_count} {s = s} {c} run at =
      (run_shortens run, canceled_progresses persistence cut ctx_error end fits worker_count s c at)
