-- ===== src/Indexer/Concurrent/Rounds.antt =====
-- A round of the collecting loop against a round of the sequential indexer: both lead to one end.
use chain_watch.Prelude.{
  ℕ, suc, ◌+◌, ◌-◌, ◌^◌, ◌≤◌, ◌<◌, ◌≡◌, refl, sym, ap, ◌∙◌, inl, inr, some, List, [], ◌∷◌, ◌++◌,
  ◌==◌, nat_eq, lookup, lookup-delete_where, if◌then◌else◌, arith, Bool-cases,
}
use chain_watch.Errors.{Result, ok, err}
use chain_watch.Effects.{
  Action, pure, wrapping, ◌>>=◌, give, proceed, bind-ext, bind_assoc, bind-result,
}
use chain_watch.Domain.{BlockTransferIndex, u64}
use chain_watch.Indexer.{TransferBlockClient, BlockPersistence, validate_parent_hash}
use chain_watch.Indexer.Sequential.{index_block, index_from}
use chain_watch.Indexer.Concurrent.{
  BlockResult, fetch_index, Collector, Progress, waiting, returned, commit, advance, after_commit,
  commit_next,
}

-- During the run the node gives the same answer for a block number whenever it is asked, and the
-- calls of it leave the store alone.
pub record IsSnapshot {W : Type 0} (answer : ℕ → Result BlockTransferIndex)
    (client : TransferBlockClient W) : Type 0 where
  pub answers : (n : ℕ) (w : W) → fetch_index client n w ≡ (answer n, w)

module _ {W : Type 0} {answer : ℕ → Result BlockTransferIndex} {client : TransferBlockClient W}
    (persistence : BlockPersistence W) (snapshot : IsSnapshot answer client) (end : ℕ) where
  -- What the sequential loop does from where the collector stands.
  abbrev pub sequel : Collector → W → Result (List BlockTransferIndex) × W
  sequel c =
      index_from client persistence (suc (end - c.next_commit)) end c.next_commit
        c.expected_parent_hash c.ordered_results

  -- Every result that is pending is the answer for the block that it is stored under.
  abbrev pub Genuine : Collector → Type 0
  Genuine c = (k : ℕ) (r : BlockResult) → lookup k c.pending ≡ some r → r.outcome ≡ answer k

  -- The progress and the world lead to what the sequential indexer ends with.
  abbrev pub LeadsTo : Result (List BlockTransferIndex) × W → Progress × W → Type 0
  LeadsTo goal (waiting c, w) = (sequel c w ≡ goal) × (c.next_commit ≤ end) × Genuine c
  LeadsTo goal (returned r, w) = ◌≡◌ {A = Result (List BlockTransferIndex) × W} (r, w) goal

  -- The sequential loop, from the point where the block is fetched and where it is committed.
  abbrev pub seq_commit :
      Collector → BlockTransferIndex → Result (Unit {0}) × W → Result (List BlockTransferIndex) × W
  seq_commit c index (ok u, w) =
      let rest =
        index_from client persistence (end - c.next_commit) end (u64 (c.next_commit + 1))
          index.block_hash (c.ordered_results ++ index ∷ []) w in
      if c.next_commit == end then (ok (c.ordered_results ++ index ∷ []), w) else rest
  seq_commit c index (err e, w) = (err e, w)

  abbrev pub seq_after :
      Collector → Result BlockTransferIndex → W → Result (List BlockTransferIndex) × W
  seq_after c (ok index) w = seq_commit c index (commit persistence end c index w)
  seq_after c (err e) w = (err e, w)

  index_block-fetch_index :
      (c : Collector) (n : ℕ) (w : W)
      → index_block client persistence n c.expected_parent_hash w
        ≡ (fetch_index client n >>= λ index. commit persistence end c index >>= λ _. pure index) w
  unfolding index_block fetch_index commit
  index_block-fetch_index c n w =
      bind-ext _ _ _ w (λ block w₁. bind-ext _ _ _ w₁ (λ index w₂. sym (
        bind_assoc
          (give (validate_parent_hash index.block_number index.parent_hash c.expected_parent_hash))
          (λ _.
            wrapping "failed to persist indexed block %d" (persistence.save_indexed_block index))
          (λ _. pure index) w₂)))
      ∙ sym (bind_assoc _ _ _ w)

  -- The sequential loop behind its `index_block`.
  abbrev after_index : Collector → BlockTransferIndex → Action W (List BlockTransferIndex)
  after_index c index =
      let rest =
        index_from client persistence (end - c.next_commit) end (u64 (c.next_commit + 1))
          index.block_hash (c.ordered_results ++ index ∷ []) in
      if c.next_commit == end then pure (c.ordered_results ++ index ∷ []) else rest

  after_pair :
      (c : Collector) (index : BlockTransferIndex) (r : Result (Unit {0}) × W)
      → let m = proceed r.0 (λ _. pure index) r.1 in
        proceed m.0 (after_index c) m.1 ≡ seq_commit c index r
  unfolding ◌>>=◌
  after_pair c index (err e, w) = refl
  after_pair c index (ok u, w) = elim (Bool-cases (c.next_commit == end)) [
    | inl last ↦ rw last
    | inr more ↦ rw more
  ]

  after_answer :
      (c : Collector) (r : Result BlockTransferIndex) (w : W)
      → let m = proceed r (λ index. commit persistence end c index >>= λ _. pure index) w in
        proceed m.0 (after_index c) m.1 ≡ seq_after c r w
  unfolding ◌>>=◌
  after_answer c (err e) w = refl
  after_answer c (ok index) w = after_pair c index (commit persistence end c index w)

  pub sequel-seq_after : (c : Collector) (w : W) → sequel c w ≡ seq_after c (answer c.next_commit) w
  unfolding index_from
  sequel-seq_after c w =
      bind-result (index_block client persistence c.next_commit c.expected_parent_hash)
        (after_index c) w
        (index_block-fetch_index c c.next_commit w
          ∙ bind-result _ _ w (snapshot.answers c.next_commit w))
      ∙ after_answer c (answer c.next_commit) w

  after_commit-LeadsTo :
      (c : Collector) (index : BlockTransferIndex) (r : Result (Unit {0}) × W)
      → c.next_commit ≤ end
      → end < 2 ^ 64
      → Genuine c
      → LeadsTo (seq_commit c index r) (after_commit persistence end c index r)
  unfolding advance
  after_commit-LeadsTo c index (err e, w) below fits genuine = refl
  after_commit-LeadsTo c index (ok u, w) below fits genuine =
      elim (Bool-cases (c.next_commit == end)) [
        | inl last ↦ rw last refl
        | inr more ↦
            let smaller : c.next_commit < end = ground arith in
            let fuel : suc (end - u64 (c.next_commit + 1)) ≡ end - c.next_commit = omega arith in
            rw more (
              ap
                  (λ (f : ℕ).
                    index_from client persistence f end (u64 (c.next_commit + 1)) index.block_hash
                      (c.ordered_results ++ index ∷ []) w)
                  fuel,
              omega arith,
              λ k r at.
                  ground
                    (arith, lookup-delete_where (λ n. n == c.next_commit) k c.pending, genuine k r),
            )
      ]

  pub commit_next-LeadsTo :
      (c : Collector) (r : Result BlockTransferIndex) (w : W)
      → c.next_commit ≤ end
      → end < 2 ^ 64
      → Genuine c
      → LeadsTo (seq_after c r w) (commit_next persistence end c r w)
  unfolding commit_next
  commit_next-LeadsTo c (err e) w below fits genuine = refl
  commit_next-LeadsTo c (ok index) w below fits genuine =
      after_commit-LeadsTo c index (commit persistence end c index w) below fits genuine
