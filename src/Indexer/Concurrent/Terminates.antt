-- ===== src/Indexer/Concurrent/Terminates.antt =====
-- No run is stuck before IndexRange returns, and no run is longer than a bound that the range gives.
use chain_watch.Prelude.{
  ℕ, suc, ◌+◌, ◌-◌, ◌*◌, ◌^◌, ◌≤◌, ◌<◌, ◌≡◌, refl, ap, Option, none, some, List, [], ◌∷◌, ◌++◌,
  nat_eq, length-append, length, arith,
}
use chain_watch.Errors.{Result}
use chain_watch.Domain.{BlockTransferIndex}
use chain_watch.Indexer.{TransferBlockClient, BlockPersistence, Start}
use chain_watch.Indexer.Concurrent.{
  BlockResult, Collector, Progress, waiting, returned, receive, System, after_send, started, Step,
  send, fetch, deliver, collect, close, Run, here, next,
}
use chain_watch.Indexer.Concurrent.Rounds.{IsSnapshot}
use chain_watch.Indexer.Concurrent.Invariant.{Inv}
use chain_watch.Indexer.Concurrent.Refines.{Run-Inv, never_closes, sequential}

abbrev pub to_send : ℕ → Option ℕ → ℕ
to_send end none = 0
to_send end (some p) = suc (end - p)

abbrev pub still_waiting : Progress → ℕ
still_waiting (waiting c) = 1
still_waiting (returned r) = 0

-- How many steps are left at most: a block passes four points on its way.
abbrev pub steps_left : {W : Type 0} → ℕ → System W → ℕ
steps_left end s =
    4 * to_send end s.producer
    + 3 * length s.fetching
    + 2 * length s.finished
    + length s.queue
    + still_waiting s.collector

pub length_middle :
    {A : Type 0} (before : List A) (a : A) (behind : List A)
    → length (before ++ a ∷ behind) ≡ suc (length (before ++ behind))
length_middle [] a behind = refl
length_middle (x ∷ before) a behind = ap suc (length_middle before a behind)

to_send-after_send :
    (end p : ℕ)
    → p ≤ end
    → end < 2 ^ 64
    → suc (to_send end (after_send end p)) ≤ to_send end (some p)
unfolding after_send
to_send-after_send end p low fits = ground arith

still_waiting-le : (p : Progress) → still_waiting p ≤ 1
still_waiting-le (waiting c) = omega arith
still_waiting-le (returned r) = omega arith

module _ {W : Type 0} {client : TransferBlockClient W} (persistence : BlockPersistence W) (end : ℕ)
    (fits : end < 2 ^ 64) where
  pub steps_left-Step :
      {worker_count : ℕ} {s t : System W}
      → Step client persistence worker_count end s t
      → ((p : ℕ) → s.producer ≡ some p → p ≤ end)
      → steps_left end t < steps_left end s
  steps_left-Step (send s p at room) low =
      omega (arith, ap (to_send end) at, to_send-after_send end p (low p at) fits)
  steps_left-Step (fetch s before n behind at) low =
      omega (arith, ap length at, length_middle before n behind)
  steps_left-Step (deliver s before r behind at room) low =
      omega (arith, ap length at, length_middle before r behind, length-append s.queue (r ∷ []))
  steps_left-Step (collect s r rest c queued at) low = omega (
    arith,
    ap length queued,
    ap still_waiting at,
    still_waiting-le (receive persistence end r c s.world).0,
  )
  steps_left-Step (close s c stopped idle sent_all empty at) low =
      omega (arith, ap still_waiting at)

module _ {W : Type 0} {answer : ℕ → Result BlockTransferIndex} {client : TransferBlockClient W}
    (persistence : BlockPersistence W) (snapshot : IsSnapshot answer client) (end : ℕ)
    (start : Start) (w : W) (fits : end < 2 ^ 64) (range : start.next_block ≤ end) where
  Step-steps_left :
      {worker_count : ℕ} {s t : System W}
      → Step client persistence worker_count end s t
      → Inv persistence snapshot end (sequential persistence snapshot end start w fits range) s
      → steps_left end t < steps_left end s
  Step-steps_left moved inv = steps_left-Step persistence end fits moved inv.producer_low

  -- For a node that answers as a snapshot and a range of blocks below 2^64, the steps of a run and
  -- those that its state still allows are at most four for each block of the range, and one more.
  pub run_bounded :
      {worker_count k : ℕ} {s : System W}
      → Run client persistence worker_count end (started start w) k s
      → k + steps_left end s ≤ 4 * suc (end - start.next_block) + 1
  unfolding started
  run_bounded here = omega arith
  run_bounded (next run step) = omega (
    arith,
    run_bounded run,
    Step-steps_left step (Run-Inv persistence snapshot end start w fits range run),
  )

  -- For a node that answers as a snapshot and a range of blocks below 2^64: while IndexRange has not
  -- returned, and there is a worker, some step is possible.
  pub run_progresses :
      {worker_count k : ℕ} {s : System W} {c : Collector}
      → 0 < worker_count
      → Run client persistence worker_count end (started start w) k s
      → s.collector ≡ waiting c
      → (t : System W) × Step client persistence worker_count end s t
  run_progresses {worker_count} {s = s} {c} workers run at =
      by_queue s.queue refl s.finished refl s.fetching refl s.producer refl
    where
      by_queue :
          (queue : List BlockResult)
          → s.queue ≡ queue
          → (finished : List BlockResult) → s.finished ≡ finished
          → (fetching : List ℕ) → s.fetching ≡ fetching
          → (producer : Option ℕ) → s.producer ≡ producer
          → (t : System W) × Step client persistence worker_count end s t
      by_queue (r ∷ rest) q finished f fetching g producer p = (_, collect s r rest c q at)
      by_queue [] q (r ∷ rest) f fetching g producer p =
          (_, deliver s [] r rest f (omega (arith, ap length q)))
      by_queue [] q [] f (n ∷ rest) g producer p = (_, fetch s [] n rest g)
      by_queue [] q [] f [] g (some n) p = (_, send s n p (omega (arith, ap length f, ap length g)))
      by_queue [] q [] f [] g none p = absurd (
          never_closes persistence snapshot end fits _ s c p g f q at
            (Run-Inv persistence snapshot end start w fits range run))
