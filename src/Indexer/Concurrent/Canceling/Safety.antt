-- ===== src/Indexer/Concurrent/Canceling/Safety.antt =====
-- Every run that may be canceled: what is committed, and what is returned of it.
use mathlib.Core.Path.{subst}
use chain_watch.Prelude.{
  ℕ, suc, ◌^◌, ◌≤◌, ◌<◌, ◌≡◌, refl, sym, some, List, [], ◌∷◌, append-nil, lookup, All, arith,
  All-append, All-remove,
}
use chain_watch.Errors.{GoError, Result, ok}
use chain_watch.Domain.{BlockTransferIndex}
use chain_watch.Indexer.{TransferBlockClient, BlockPersistence, Start}
use chain_watch.Indexer.History.{KeepsHistory}
use chain_watch.Indexer.Concurrent.{
  BlockResult, Collector, waiting, new_collector, System, started, Step, send, fetch, deliver,
  collect, close, Run, here, next,
}
use chain_watch.Indexer.Concurrent.Rounds.{IsSnapshot}
use chain_watch.Indexer.Concurrent.Steps.{process_block-snapshot, producer_low-after_send}
use chain_watch.Indexer.Concurrent.Refines.{never_closes, Run-Inv}
use chain_watch.Indexer.Concurrent.Canceling.{
  Cancelable, live, canceled, Idle, CancelStep, go_on, cancel, go_on_canceled, stop_producer,
  cut_short, leave, close_canceled, CancelRun, begin, step, system_of,
}
use chain_watch.Indexer.Concurrent.Canceling.Standing.{
  Numbered, grown_none, Waits, Standing, standing_waits, standing_failed, receive-Standing,
}

abbrev IsNumbered : BlockResult → Type 0
IsNumbered r = Numbered r.block_number r.outcome

module _ {W : Type 0} {answer : ℕ → Result BlockTransferIndex} {client : TransferBlockClient W}
    (snapshot : IsSnapshot answer client) (numbered : (n : ℕ) → Numbered n (answer n))
    (history : W → List BlockTransferIndex) (start : Start) (end : ℕ) (fits : end < 2 ^ 64)
    (before : List BlockTransferIndex) where
  -- The loop stands where the history does, and no result has the number of another block.
  pub record Safe (s : System W) : Type 0 where
    pub standing : Standing start end before s.collector (history s.world)
    pub finished_numbered : All IsNumbered s.finished
    pub queue_numbered : All IsNumbered s.queue
    pub producer_low : (p : ℕ) → s.producer ≡ some p → p ≤ end

  collector_at :
      (s : System W) (c : Collector)
      → s.collector ≡ waiting c
      → Safe s
      → Waits start end before c (history s.world)
  collector_at s c at safe =
      go (subst (λ p. Standing start end before p (history s.world)) at safe.standing)
    where
      go :
          Standing start end before (waiting c) (history s.world)
          → Waits start end before c (history s.world)
      go (standing_waits _ _ waits) = waits

  Step-Safe :
      (persistence : BlockPersistence W)
      → KeepsHistory history persistence
      → {worker_count : ℕ} {s t : System W} → Step client persistence worker_count end s t
      → ((c : Collector) → Idle s → s.collector ≡ waiting c → ⊥)
      → Safe s
      → Safe t
  Step-Safe persistence store (send s n at room) open_results safe = record {
    standing = safe.standing;
    finished_numbered = safe.finished_numbered;
    queue_numbered = safe.queue_numbered;
    producer_low = λ q e.
        producer_low-after_send persistence snapshot end fits (ok [], s.world) n q
          (safe.producer_low n at) e;
  }
  Step-Safe persistence store (fetch s first n behind at) open_results safe =
      rw (process_block-snapshot persistence snapshot end fits (ok [], s.world) n s.world) (record {
        standing = safe.standing;
        finished_numbered = (numbered n, safe.finished_numbered);
        queue_numbered = safe.queue_numbered;
        producer_low = safe.producer_low;
      })
  Step-Safe persistence store (deliver s first r behind at room) open_results safe =
      let (rest, this) =
        All-remove _ first r behind (subst (All IsNumbered) at safe.finished_numbered) in
      record {
        standing = safe.standing;
        finished_numbered = rest;
        queue_numbered = All-append _ s.queue (r ∷ []) safe.queue_numbered (this, tt);
        producer_low = safe.producer_low;
      }
  Step-Safe persistence store (collect s r rest c queued at) open_results safe =
      let (this, others) = subst (All IsNumbered) queued safe.queue_numbered in
      record {
        standing =
            receive-Standing start end before history persistence store fits r c s.world
              (collector_at s c at safe) this;
        finished_numbered = safe.finished_numbered;
        queue_numbered = others;
        producer_low = safe.producer_low;
      }
  Step-Safe persistence store (close s c stopped idle sent_all empty at) open_results safe =
      absurd (
        open_results c
          (record {
            no_producer = stopped;
            none_fetching = idle;
            none_finished = sent_all;
            empty_queue = empty;
          })
          at)

  module _ (persistence cut : BlockPersistence W) (store : KeepsHistory history persistence)
      (cut_store : KeepsHistory history cut) (ctx_error : GoError) where
    Step-Safe-canceled :
        {worker_count : ℕ} {s t : Cancelable W}
        → CancelStep client persistence cut ctx_error worker_count end s t
        → ((l : System W) → s ≡ live l → (c : Collector) → Idle l → l.collector ≡ waiting c → ⊥)
        → Safe (system_of s)
        → Safe (system_of t)
    Step-Safe-canceled (go_on s t moved) open_results safe =
        Step-Safe persistence store moved (open_results s refl) safe
    Step-Safe-canceled (cancel s) open_results safe = safe
    Step-Safe-canceled (go_on_canceled s t busy moved) open_results safe =
        Step-Safe cut cut_store moved (λ c idle at. busy idle) safe
    Step-Safe-canceled (stop_producer s n at) open_results safe = record {
      standing = safe.standing;
      finished_numbered = safe.finished_numbered;
      queue_numbered = safe.queue_numbered;
      producer_low = λ p e. cc;
    }
    Step-Safe-canceled (cut_short s first n behind e at) open_results safe = record {
      standing = safe.standing;
      finished_numbered = (λ index same. cc, safe.finished_numbered);
      queue_numbered = safe.queue_numbered;
      producer_low = safe.producer_low;
    }
    Step-Safe-canceled (leave s first r behind at) open_results safe =
        let (rest, _) =
          All-remove _ first r behind (subst (All IsNumbered) at safe.finished_numbered) in
        record {
          standing = safe.standing;
          finished_numbered = rest;
          queue_numbered = safe.queue_numbered;
          producer_low = safe.producer_low;
        }
    Step-Safe-canceled (close_canceled s c idle at) open_results safe =
        let waits = collector_at s c at safe in
        record {
          standing =
              standing_failed ctx_error c.ordered_results _ _ _ waits.grown waits.low
                waits.committed;
          finished_numbered = safe.finished_numbered;
          queue_numbered = safe.queue_numbered;
          producer_low = safe.producer_low;
        }

    -- Up to the cancellation the run is one without.
    abbrev Uncanceled : ℕ → System W → Cancelable W → Type 0
    Uncanceled worker_count first (live s) =
        (k : ℕ) × Run client persistence worker_count end first k s
    Uncanceled worker_count first (canceled s) = Unit

    step-Uncanceled :
        {worker_count : ℕ} (first : System W) {s t : Cancelable W}
        → CancelStep client persistence cut ctx_error worker_count end s t
        → Uncanceled worker_count first s
        → Uncanceled worker_count first t
    step-Uncanceled first (go_on s t moved) (k, run) = (suc k, next run moved)
    step-Uncanceled first (cancel s) run = tt
    step-Uncanceled first (go_on_canceled s t busy moved) run = tt
    step-Uncanceled first (stop_producer s n at) run = tt
    step-Uncanceled first (cut_short s before' n behind e at) run = tt
    step-Uncanceled first (leave s before' r behind at) run = tt
    step-Uncanceled first (close_canceled s c idle at) run = tt

    run-Uncanceled :
        {worker_count : ℕ} {first : System W} {k : ℕ} {x : Cancelable W}
        → CancelRun client persistence cut ctx_error worker_count end first k x
        → Uncanceled worker_count first x
    run-Uncanceled begin = (0, here)
    run-Uncanceled {first} (step run moved) = step-Uncanceled first moved (run-Uncanceled run)

    -- `results` is not closed under a collector that waits, unless the run is canceled.
    stays_open :
        (worker_count : ℕ) (w : W) (x : Cancelable W)
        → start.next_block ≤ end
        → Uncanceled worker_count (started start w) x
        → (l : System W) → x ≡ live l
        → (c : Collector) → Idle l
        → l.collector ≡ waiting c
        → ⊥
    stays_open worker_count w (live s) range (k, run) l same c idle at =
        let this : s ≡ l = cc in
        never_closes persistence snapshot end fits _ s c (rw this idle.no_producer)
          (rw this idle.none_fetching) (rw this idle.none_finished) (rw this idle.empty_queue)
          (rw this at) (Run-Inv persistence snapshot end start w fits range run)
    stays_open worker_count w (canceled s) range run l same c idle at = cc

module _ {W : Type 0} {answer : ℕ → Result BlockTransferIndex} {client : TransferBlockClient W}
    (snapshot : IsSnapshot answer client) (numbered : (n : ℕ) → Numbered n (answer n))
    (history : W → List BlockTransferIndex) (start : Start) (end : ℕ) (fits : end < 2 ^ 64)
    (persistence cut : BlockPersistence W) (store : KeepsHistory history persistence)
    (cut_store : KeepsHistory history cut) (ctx_error : GoError) (w : W)
    (range : start.next_block ≤ end) where
  pub run-Safe :
      {worker_count k : ℕ} {x : Cancelable W}
      → CancelRun client persistence cut ctx_error worker_count end (started start w) k x
      → Safe snapshot numbered history start end fits (history w) (system_of x)
  unfolding started new_collector lookup
  run-Safe begin = record {
    standing = standing_waits _ _ (record {
      grown = grown_none;
      committed = sym (append-nil (history w));
      low = range;
      numbered = λ k r found. cc;
    });
    finished_numbered = tt;
    queue_numbered = tt;
    producer_low = λ p e. ground arith;
  }
  run-Safe (step {s = s} run moved) =
      Step-Safe-canceled snapshot numbered history start end fits (history w) persistence cut store
        cut_store ctx_error moved
        (stays_open snapshot numbered history start end fits (history w) persistence cut store
          cut_store ctx_error _ w s range
          (run-Uncanceled snapshot numbered history start end fits (history w) persistence cut store
            cut_store ctx_error run))
        (run-Safe run)

  -- Whenever the caller cancels the context, and whatever the schedule and the calls that are cut short by
  -- it: at every moment the store holds what it held before, and behind it blocks of consecutive
  -- numbers from the start, each of which may follow the one before. A result without an error is
  -- these blocks, up to the end of the range; with an error they stop before it. The node answers alike
  -- whenever it is asked, with the block of the number; a save that succeeds appends its block to the
  -- history, one that fails leaves the history alone.
  pub CancelRun-Standing :
      {worker_count k : ℕ} {x : Cancelable W}
      → CancelRun client persistence cut ctx_error worker_count end (started start w) k x
      → Standing start end (history w) (system_of x).collector (history (system_of x).world)
  CancelRun-Standing run = (run-Safe run).standing
