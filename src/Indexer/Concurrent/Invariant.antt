-- ===== src/Indexer/Concurrent/Invariant.antt =====
-- What holds in every state of a run: no block is lost between the channels, every result is genuine,
-- and the collector is on the way to what the sequential indexer ends with.
use chain_watch.Prelude.{
  ℕ, suc, ◌+◌, ◌≤◌, ◌<◌, ◌≡◌, ◌⊎◌, Bool, true, false, Option, none, some, List, [], ◌∷◌, ◌++◌, ◌==◌,
  nat_eq, All, lookup, if◌then◌else◌, arith,
}
use chain_watch.Errors.{Result}
use chain_watch.Domain.{BlockTransferIndex}
use chain_watch.Indexer.{TransferBlockClient, BlockPersistence}
use chain_watch.Indexer.Concurrent.{BlockResult, Collector, waiting, System}
use chain_watch.Indexer.Concurrent.Rounds.{IsSnapshot, LeadsTo}

-- How often a number is in a list, and a block among results.
unfoldable pub count : ℕ → List ℕ → ℕ
count n [] = 0
count n (k ∷ ks) = let rest = count n ks in if k == n then suc rest else rest

unfoldable pub count_results : ℕ → List BlockResult → ℕ
count_results n [] = 0
count_results n (r ∷ rs) =
    let rest = count_results n rs in if r.block_number == n then suc rest else rest

pub count_middle :
    (n k : ℕ) (before behind : List ℕ)
    → count n (before ++ k ∷ behind) ≡ count n (before ++ behind) + count n (k ∷ [])
unfolding count
count_middle n k [] behind = ground arith
count_middle n k (j ∷ before) behind = ground (arith, count_middle n k before behind)

pub count_results_middle :
    (n : ℕ) (r : BlockResult) (before behind : List BlockResult)
    → count_results n (before ++ r ∷ behind)
      ≡ count_results n (before ++ behind) + count_results n (r ∷ [])
unfolding count_results
count_results_middle n r [] behind = ground arith
count_results_middle n r (s ∷ before) behind =
    ground (arith, count_results_middle n r before behind)

pub count_results_last :
    (n : ℕ) (r : BlockResult) (rs : List BlockResult)
    → count_results n (rs ++ r ∷ []) ≡ count_results n rs + count_results n (r ∷ [])
unfolding count_results
count_results_last n r [] = omega arith
count_results_last n r (s ∷ rs) = ground (arith, count_results_last n r rs)

abbrev pub present {ℓ} : {A : Type ℓ} → Option A → Bool
present none = false
present (some a) = true

-- The producer has handed out block `n`.
abbrev pub Sent : ℕ → Option ℕ → ℕ → Type 0
Sent end none n = n ≤ end
Sent end (some p) n = n < p

-- Copies of block `n` that a worker or the buffer holds.
abbrev pub held : {W : Type 0} → ℕ → System W → ℕ
held n s = count n s.fetching + count_results n s.finished + count_results n s.queue

module _ {W : Type 0} {answer : ℕ → Result BlockTransferIndex} {client : TransferBlockClient W}
    (persistence : BlockPersistence W) (snapshot : IsSnapshot answer client) (end : ℕ) where
  abbrev pub Answers : BlockResult → Type 0
  Answers r = r.outcome ≡ answer r.block_number

  pub record Inv (goal : Result (List BlockTransferIndex) × W) (s : System W) : Type 0 where
    pub leads : LeadsTo persistence snapshot end goal (s.collector, s.world)
    pub finished_genuine : All Answers s.finished
    pub queue_genuine : All Answers s.queue
    pub producer_low : (p : ℕ) → s.producer ≡ some p → p ≤ end
    pub covered :
        (c : Collector) (n : ℕ)
        → s.collector ≡ waiting c
        → c.next_commit ≤ n
        → Sent end s.producer n
        → (0 < held n s) ⊎ (present (lookup n c.pending) ≡ true)
    pub settled : (c : Collector) → s.collector ≡ waiting c → lookup c.next_commit c.pending ≡ none
