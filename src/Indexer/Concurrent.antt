-- ===== src/Indexer/Concurrent.antt =====
-- internal/indexer/concurrent_indexer.go: the workers, the channels and the collecting loop, in runs
-- where the caller does not cancel the context. Each channel operation is a step, and the schedule
-- chooses among the steps that are possible.
pub mod Rounds
pub mod Draining
pub mod Invariant
pub mod Steps
pub mod Refines
pub mod Terminates
pub mod Canceling
pub mod Entry
pub mod Range
use chain_watch.Prelude.{
  ℕ, zero, suc, ◌+◌, ◌<◌, ◌≡◌, Bool, true, false, Option, none, some, List, [], ◌∷◌, ◌++◌, ◌==◌,
  nat_eq, ℤ, pos, negsuc, ltb, lookup, insert, delete_where, length, if◌then◌else◌,
}
use chain_watch.Errors.{
  GoError, Result, ok, err, classify, validation, indexing, invalid_block_range,
  invalid_worker_count, sentinel, new_domain_error,
}
use chain_watch.Effects.{Action, pure, fail, wrapping, ◌>>=◌, ◌>>◌, give}
use chain_watch.Domain.{BlockHash, BlockTransferIndex, u64}
use chain_watch.Indexer.{TransferBlockClient, BlockPersistence, validate_parent_hash, Start, resume}

-- `concurrentBlockResult`: the index, or the error in its place.
pub record BlockResult : Type 0 where
  pub block_number : ℕ
  pub outcome : Result BlockTransferIndex

module _ {W : Type 0} (client : TransferBlockClient W) where
  unfoldable pub fetch_index : ℕ → Action W BlockTransferIndex
  fetch_index block_number = do
    block ← wrapping "failed to fetch block %d" (client.get_observed_block_by_number block_number)
    wrapping "failed to index block %d" (client.get_erc20_transfers_by_block block)

  unfoldable pub process_block : ℕ → W → BlockResult × W
  process_block block_number w =
      let (outcome, after) = fetch_index block_number w in
      (record { block_number = block_number; outcome = outcome }, after)

-- The variables of the collecting loop.
pub record Collector : Type 0 where
  pub pending : List (ℕ × BlockResult)
  pub next_commit : ℕ
  pub expected_parent_hash : BlockHash
  pub ordered_results : List BlockTransferIndex

-- The loop waits for a result, or IndexRange has returned.
pub data Progress : Type 0 where
  waiting : Collector → Progress
  returned : Result (List BlockTransferIndex) → Progress

unfoldable pub new_collector : Start → Collector
new_collector start = record {
  pending = [];
  next_commit = start.next_block;
  expected_parent_hash = start.expected_parent_hash;
  ordered_results = [];
}

module _ {W : Type 0} (persistence : BlockPersistence W) (end : ℕ) where
  unfoldable pub commit : Collector → BlockTransferIndex → Action W (Unit {0})
  commit c index = do
    give (validate_parent_hash index.block_number index.parent_hash c.expected_parent_hash)
    wrapping "failed to persist indexed block %d" (persistence.save_indexed_block index)

  -- What follows a block that is committed.
  unfoldable pub advance : Collector → BlockTransferIndex → Progress
  advance c index =
      if c.next_commit == end
      then returned (ok (c.ordered_results ++ index ∷ []))
      else waiting (record {
        pending = delete_where (λ n. n == c.next_commit) c.pending;
        next_commit = u64 (c.next_commit + 1);
        expected_parent_hash = index.block_hash;
        ordered_results = c.ordered_results ++ index ∷ [];
      })

  abbrev pub after_commit : Collector → BlockTransferIndex → Result (Unit {0}) × W → Progress × W
  after_commit c index (ok u, w) = (advance c index, w)
  after_commit c index (err e, w) = (returned (err e), w)

  -- One round of the inner loop, on the pending result of the next block.
  unfoldable pub commit_next : Collector → Result BlockTransferIndex → W → Progress × W
  commit_next c (err e) w = (returned (err e), w)
  commit_next c (ok index) w = after_commit c index (commit c index w)

  abbrev pub resume_loop : (Collector → W → Progress × W) → Progress × W → Progress × W
  resume_loop again (waiting c, w) = again c w
  resume_loop again (returned r, w) = (returned r, w)

  abbrev pub on_found :
      (Collector → W → Progress × W) → Collector → Option BlockResult → W → Progress × W
  on_found again c none w = (waiting c, w)
  on_found again c (some r) w = resume_loop again (commit_next c r.outcome w)

  -- The inner loop; each round takes one entry off `pending`.
  unfoldable pub drain : ℕ → Collector → W → Progress × W
  drain zero c w = (waiting c, w)
  drain (suc fuel) c w = on_found (λ c' w'. drain fuel c' w') c (lookup c.next_commit c.pending) w

  unfoldable pub store_pending : BlockResult → Collector → Collector
  store_pending r c = record c { pending = insert r.block_number r c.pending }

  -- A round of the outer loop, on a result that was received.
  unfoldable pub receive : BlockResult → Collector → W → Progress × W
  unfolding store_pending
  receive r c w = let c' = store_pending r c in drain (suc (length c'.pending)) c' w

-- The producer is about to send a block number, or has closed `jobs`; workers are fetching a block or
-- hold a result that they send; `queue` is the buffer of `results`.
pub record System (W : Type 0) : Type 0 where
  pub producer : Option ℕ
  pub fetching : List ℕ
  pub finished : List BlockResult
  pub queue : List BlockResult
  pub collector : Progress
  pub world : W

unfoldable pub after_send : ℕ → ℕ → Option ℕ
after_send end n = if n == end then none else some (u64 (n + 1))

unfoldable pub started : {W : Type 0} → Start → W → System W
unfolding new_collector
started start w = record {
  producer = some start.next_block;
  fetching = [];
  finished = [];
  queue = [];
  collector = waiting (new_collector start);
  world = w;
}

pub data Step {W : Type 0} (client : TransferBlockClient W) (persistence : BlockPersistence W)
    (worker_count end : ℕ) : System W → System W → Type 0 where
  -- `jobs` has no buffer: a worker that is free takes the number.
  send :
      (s : System W) (n : ℕ)
      → s.producer ≡ some n
      → length s.fetching + length s.finished < worker_count
      → Step client persistence worker_count end s
          (record s { producer = after_send end n; fetching = n ∷ s.fetching })
  fetch :
      (s : System W) (before : List ℕ) (n : ℕ) (behind : List ℕ)
      → s.fetching ≡ before ++ n ∷ behind
      → Step client persistence worker_count end s (record s {
        fetching = before ++ behind;
        finished = (process_block client n s.world).0 ∷ s.finished;
        world = (process_block client n s.world).1;
      })
  deliver :
      (s : System W) (before : List BlockResult) (r : BlockResult) (behind : List BlockResult)
      → s.finished ≡ before ++ r ∷ behind
      → length s.queue < worker_count
      → Step client persistence worker_count end s
          (record s { finished = before ++ behind; queue = s.queue ++ r ∷ [] })
  collect :
      (s : System W) (r : BlockResult) (rest : List BlockResult) (c : Collector)
      → s.queue ≡ r ∷ rest
      → s.collector ≡ waiting c
      → Step client persistence worker_count end s (record s {
        queue = rest;
        collector = (receive persistence end r c s.world).0;
        world = (receive persistence end r c s.world).1;
      })
  -- All workers have left, so `results` is closed and the loop over it ends.
  close :
      (s : System W) (c : Collector)
      → s.producer ≡ none
      → s.fetching ≡ []
      → s.finished ≡ []
      → s.queue ≡ []
      → s.collector ≡ waiting c
      → Step client persistence worker_count end s
          (record s { collector = returned (ok c.ordered_results) })

-- The states of a run from the start.
pub data Run {W : Type 0} (client : TransferBlockClient W) (persistence : BlockPersistence W)
    (worker_count end : ℕ) (first : System W) : ℕ → System W → Type 0 where
  here : Run client persistence worker_count end first zero first
  next :
      {k : ℕ} {s t : System W}
      → Run client persistence worker_count end first k s
      → Step client persistence worker_count end s t
      → Run client persistence worker_count end first (suc k) t
