-- ===== src/Indexer/Concurrent/Canceling/Standing.antt =====
-- What the collecting loop has committed, whatever results it is given.
use chain_watch.Prelude.{
  ℕ, zero, suc, ◌+◌, ◌^◌, ◌≤◌, ◌<◌, ◌≡◌, refl, ◌∙◌, inl, inr, false, Option, none, some, List, [],
  ◌∷◌, ◌++◌, append_assoc, ◌==◌, nat_eq, lookup, insert, delete_where, lookup-insert,
  lookup-delete_where, arith, Bool-cases, Option-cases, nat_beq_iff,
}
use chain_watch.Errors.{GoError, Result, ok, err}
use chain_watch.Effects.Ends.{Ends, Ends-bind, Ends-give, Ends-wrapping}
use chain_watch.Domain.{BlockHash, BlockTransferIndex, u64}
use chain_watch.Indexer.{BlockPersistence, Start}
use chain_watch.Indexer.History.{Follows, KeepsHistory}
use chain_watch.Indexer.Sequential.Blocks.{validate_parent_hash-Follows}
use chain_watch.Indexer.Concurrent.{
  BlockResult, Collector, Progress, waiting, returned, commit, advance, after_commit, commit_next,
  resume_loop, drain, store_pending, receive,
}

-- Blocks of consecutive numbers from the start on, each of which may follow the one before; with the
-- hash of the last and the number behind it.
pub data Grown (start : Start) : List BlockTransferIndex → BlockHash → ℕ → Type 0 where
  grown_none : Grown start [] start.expected_parent_hash start.next_block
  grown_more :
      (blocks : List BlockTransferIndex) (hash : BlockHash) (n : ℕ) (index : BlockTransferIndex)
      → Grown start blocks hash n
      → Follows hash index
      → index.block_number ≡ n
      → Grown start (blocks ++ index ∷ []) index.block_hash (n + 1)

-- An index that is the outcome for block `n` has its number.
abbrev pub Numbered : ℕ → Result BlockTransferIndex → Type 0
Numbered n outcome = (index : BlockTransferIndex) → outcome ≡ ok index → index.block_number ≡ n

module _ (start : Start) (end : ℕ) (before : List BlockTransferIndex) where
  -- A collector that waits, against the history.
  pub record Waits (c : Collector) (history : List BlockTransferIndex) : Type 0 where
    pub grown : Grown start c.ordered_results c.expected_parent_hash c.next_commit
    pub committed : history ≡ before ++ c.ordered_results
    pub low : c.next_commit ≤ end
    pub numbered : (k : ℕ) (r : BlockResult) → lookup k c.pending ≡ some r → Numbered k r.outcome

  -- The progress of the loop against the history.
  pub data Standing : Progress → List BlockTransferIndex → Type 0 where
    standing_waits :
        (c : Collector) (history : List BlockTransferIndex)
        → Waits c history
        → Standing (waiting c) history
    standing_done :
        (blocks : List BlockTransferIndex) (hash : BlockHash) (history : List BlockTransferIndex)
        → Grown start blocks hash (end + 1)
        → history ≡ before ++ blocks
        → Standing (returned (ok blocks)) history
    standing_failed :
        (e : GoError) (blocks : List BlockTransferIndex) (hash : BlockHash) (n : ℕ)
        (history : List BlockTransferIndex)
        → Grown start blocks hash n
        → n ≤ end
        → history ≡ before ++ blocks
        → Standing (returned (err e)) history

  module _ {W : Type 0} (history : W → List BlockTransferIndex) (persistence : BlockPersistence W)
      (store : KeepsHistory history persistence) (fits : end < 2 ^ 64) where
    pending_behind :
        (c : Collector) (h : List BlockTransferIndex)
        → Waits c h
        → (k : ℕ) (r : BlockResult)
        → lookup k (delete_where (λ n. n == c.next_commit) c.pending) ≡ some r
        → Numbered k r.outcome
    pending_behind c h waits k r found = elim (Bool-cases (k == c.next_commit)) [
      | inl same ↦ absurd (nothing (rw (lookup-delete_where, same) at found))
      | inr other ↦ waits.numbered k r (rw (lookup-delete_where, other) at found)
    ]
      where
        nothing : ◌≡◌ {A = Option BlockResult} none (some r) → ⊥
        nothing e = cc

    advance-Standing :
        (c : Collector) (h h' : List BlockTransferIndex) (index : BlockTransferIndex)
        → Waits c h
        → Follows c.expected_parent_hash index
        → index.block_number ≡ c.next_commit
        → h' ≡ h ++ index ∷ []
        → Standing (advance persistence end c index) h'
    unfolding advance
    advance-Standing c h h' index waits follows number saved =
        elim (Bool-cases (c.next_commit == end)) [
          | inl last ↦ rw last (
              standing_done (c.ordered_results ++ index ∷ []) index.block_hash h'
                (rw (← (nat_beq_iff c.next_commit end).0 last) grown) committed)
          | inr more ↦ rw more (
              standing_waits _ h' (record {
                grown = rw (next_number more) grown;
                committed = committed;
                low = below more;
                numbered = pending_behind c h waits;
              }))
        ]
      where
        grown : Grown start (c.ordered_results ++ index ∷ []) index.block_hash (c.next_commit + 1)
        grown = grown_more _ _ _ index waits.grown follows number

        committed : h' ≡ before ++ (c.ordered_results ++ index ∷ [])
        committed = saved ∙ rw (waits.committed, append_assoc)

        next_number : (c.next_commit == end) ≡ false → u64 (c.next_commit + 1) ≡ c.next_commit + 1
        next_number more = let low = waits.low in ground arith

        below : (c.next_commit == end) ≡ false → u64 (c.next_commit + 1) ≤ end
        below more = let low = waits.low in ground arith

    commit-Ends :
        (c : Collector) (index : BlockTransferIndex) (w : W)
        → Ends
            (λ _ after.
              (history after ≡ history w ++ index ∷ []) × Follows c.expected_parent_hash index)
            (λ after. history after ≡ history w)
            (commit persistence end c index w)
    unfolding commit
    commit-Ends c index w =
        Ends-bind (λ _ after. (history after ≡ history w) × Follows c.expected_parent_hash index) _
          _ w
          (Ends-give _ w
            (λ u valid. (
              refl,
              validate_parent_hash-Follows index.block_number index c.expected_parent_hash valid,
            ))
            refl)
          λ u w₁ valid. Ends-wrapping _ _ w₁ (record {
            returns = λ u saved. (rw (← valid.0) (store.save_commits index w₁ saved), valid.1);
            fails = λ e failed. store.failed_save_keeps index w₁ e failed ∙ valid.0;
          })

    commit_next-Standing :
        (c : Collector) (outcome : Result BlockTransferIndex) (w : W)
        → Waits c (history w)
        → Numbered c.next_commit outcome
        → Standing
            (commit_next persistence end c outcome w).0
            (history (commit_next persistence end c outcome w).1)
    unfolding commit_next
    commit_next-Standing c (err e) w waits numbered =
        standing_failed e c.ordered_results _ _ _ waits.grown waits.low waits.committed
    commit_next-Standing c (ok index) w waits numbered =
        go (commit persistence end c index w) (commit-Ends c index w)
      where
        go :
            (r : Result (Unit {0}) × W)
            → Ends
                (λ _ after.
                  (history after ≡ history w ++ index ∷ []) × Follows c.expected_parent_hash index)
                (λ after. history after ≡ history w)
                r
            → Standing
                (after_commit persistence end c index r).0
                (history (after_commit persistence end c index r).1)
        go (ok u, after) ends =
            let (saved, follows) = ends.returns u refl in
            advance-Standing c (history w) (history after) index waits follows (numbered index refl)
              saved
        go (err e, after) ends =
            standing_failed e c.ordered_results _ _ _ waits.grown waits.low
              (ends.fails e refl ∙ waits.committed)

    resume_loop-Standing :
        (again : Collector → W → Progress × W) (p : Progress × W)
        → Standing p.0 (history p.1)
        → ((c : Collector) (w : W)
            → Waits c (history w)
            → Standing (again c w).0 (history (again c w).1))
        → Standing
            (resume_loop persistence end again p).0
            (history (resume_loop persistence end again p).1)
    resume_loop-Standing again (waiting c, w) (standing_waits _ _ waits) keep = keep c w waits
    resume_loop-Standing again (returned (ok blocks), w) (standing_done _ hash _ grown at) keep =
        standing_done blocks hash _ grown at
    resume_loop-Standing again (returned (err e), w)
          (standing_failed _ blocks hash n _ grown low at) keep =
        standing_failed e blocks hash n _ grown low at

    drain-Standing :
        (fuel : ℕ) (c : Collector) (w : W)
        → Waits c (history w)
        → Standing (drain persistence end fuel c w).0 (history (drain persistence end fuel c w).1)
    unfolding drain
    drain-Standing zero c w waits = standing_waits c (history w) waits
    drain-Standing (suc fuel) c w waits = elim (Option-cases (lookup c.next_commit c.pending)) [
      | inl missing ↦ rw missing (standing_waits c (history w) waits)
      | inr (r, found) ↦ rw found (
          resume_loop-Standing _ (commit_next persistence end c r.outcome w)
            (commit_next-Standing c r.outcome w waits (waits.numbered c.next_commit r found))
            (drain-Standing fuel))
    ]

    pub receive-Standing :
        (r : BlockResult) (c : Collector) (w : W)
        → Waits c (history w)
        → Numbered r.block_number r.outcome
        → Standing (receive persistence end r c w).0 (history (receive persistence end r c w).1)
    unfolding receive store_pending
    receive-Standing r c w waits numbered = drain-Standing _ _ w (record {
      grown = waits.grown;
      committed = waits.committed;
      low = waits.low;
      numbered = stored;
    })
      where
        same_result : (a b : BlockResult) → some a ≡ some b → a ≡ b
        same_result a b e = cc

        stored :
            (k : ℕ) (q : BlockResult)
            → lookup k (insert r.block_number r c.pending) ≡ some q
            → Numbered k q.outcome
        stored k q found = elim (Bool-cases (r.block_number == k)) [
          | inl same ↦
              let this : r ≡ q = same_result r q (rw (lookup-insert, same) at found) in
              rw (← this, ← (nat_beq_iff r.block_number k).0 same) numbered
          | inr other ↦ waits.numbered k q (rw (lookup-insert, other) at found)
        ]
