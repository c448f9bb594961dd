-- ===== src/Indexer/Concurrent/Canceling.antt =====
-- The concurrent indexer of internal/indexer/concurrent_indexer.go where the caller may cancel the
-- context at any point of the run.
pub mod Standing
pub mod Safety
pub mod Returning
use chain_watch.Prelude.{ℕ, zero, suc, none, some, List, [], ◌∷◌, ◌++◌, ◌≡◌}
use chain_watch.Errors.{GoError, err}
use chain_watch.Indexer.{TransferBlockClient, BlockPersistence}
use chain_watch.Indexer.Concurrent.{BlockResult, Collector, waiting, returned, System, Step}

-- A run before and after the cancellation.
pub data Cancelable (W : Type 0) : Type 0 where
  live : System W → Cancelable W
  canceled : System W → Cancelable W

-- Every worker has left and `results` is drained, so that the loop over it ends.
pub record Idle {W : Type 0} (s : System W) : Type 0 where
  pub no_producer : s.producer ≡ none
  pub none_fetching : s.fetching ≡ []
  pub none_finished : s.finished ≡ []
  pub empty_queue : s.queue ≡ []

-- `cut` is the persistence under the canceled context, and `ctx_error` what `ctx.Err()` is then. A
-- `select` with two open cases takes either, so a goroutine may still send after the cancellation. A
-- worker that has left is not told from one that is free: the runs of the code are among these.
pub data CancelStep {W : Type 0} (client : TransferBlockClient W)
    (persistence cut : BlockPersistence W) (ctx_error : GoError) (worker_count end : ℕ)
    : Cancelable W → Cancelable W → Type 0 where
  go_on :
      (s t : System W)
      → Step client persistence worker_count end s t
      → CancelStep client persistence cut ctx_error worker_count end (live s) (live t)
  cancel :
      (s : System W)
      → CancelStep client persistence cut ctx_error worker_count end (live s) (canceled s)
  go_on_canceled :
      (s t : System W)
      → (Idle s → ⊥)
      → Step client cut worker_count end s t
      → CancelStep client persistence cut ctx_error worker_count end (canceled s) (canceled t)
  -- The producer takes `workerCtx.Done()`.
  stop_producer :
      (s : System W) (n : ℕ)
      → s.producer ≡ some n
      → CancelStep client persistence cut ctx_error worker_count end
          (canceled s)
          (canceled (record s { producer = none }))
  -- A call of the client is cut short by the context.
  cut_short :
      (s : System W) (before : List ℕ) (n : ℕ) (behind : List ℕ) (e : GoError)
      → s.fetching ≡ before ++ n ∷ behind
      → CancelStep client persistence cut ctx_error worker_count end (canceled s) (
          canceled (record s {
            fetching = before ++ behind;
            finished = record { block_number = n; outcome = err e } ∷ s.finished;
          }))
  -- A worker takes `workerCtx.Done()` and drops its result.
  leave :
      (s : System W) (before : List BlockResult) (r : BlockResult) (behind : List BlockResult)
      → s.finished ≡ before ++ r ∷ behind
      → CancelStep client persistence cut ctx_error worker_count end
          (canceled s)
          (canceled (record s { finished = before ++ behind }))
  -- Behind the loop over `results`: `ctx.Err()` is not nil.
  close_canceled :
      (s : System W) (c : Collector)
      → Idle s
      → s.collector ≡ waiting c
      → CancelStep client persistence cut ctx_error worker_count end
          (canceled s)
          (canceled (record s { collector = returned (err ctx_error) }))

-- The states of a run, with the number of steps so far.
pub data CancelRun {W : Type 0} (client : TransferBlockClient W)
    (persistence cut : BlockPersistence W) (ctx_error : GoError) (worker_count end : ℕ)
    (first : System W) : ℕ → Cancelable W → Type 0 where
  begin : CancelRun client persistence cut ctx_error worker_count end first zero (live first)
  step :
      {k : ℕ} {s t : Cancelable W}
      → CancelRun client persistence cut ctx_error worker_count end first k s
      → CancelStep client persistence cut ctx_error worker_count end s t
      → CancelRun client persistence cut ctx_error worker_count end first (suc k) t

abbrev pub system_of : {W : Type 0} → Cancelable W → System W
system_of (live s) = s
system_of (canceled s) = s
