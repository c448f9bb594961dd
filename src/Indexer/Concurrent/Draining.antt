-- ===== src/Indexer/Concurrent/Draining.antt =====
-- The inner loop of the collector: it takes off `pending` the blocks that are next, and stops where
-- the next block is missing or IndexRange returns.
use chain_watch.Prelude.{
  ℕ, zero, suc, ◌+◌, ◌^◌, ◌≤◌, ◌<◌, ◌≡◌, refl, sym, ap, ◌∙◌, inl, inr, Bool, false, none, some,
  List, ◌==◌, nat_eq, lookup, insert, delete_where, lookup-insert, lookup-delete_where, length,
  length-delete_where, if◌then◌else◌, arith, Bool-cases, nat_beq_iff, Option-cases,
}
use chain_watch.Errors.{Result, ok, err}
use chain_watch.Domain.{BlockTransferIndex}
use chain_watch.Indexer.{TransferBlockClient, BlockPersistence}
use chain_watch.Indexer.Concurrent.{
  BlockResult, Collector, Progress, waiting, returned, commit, advance, after_commit, commit_next,
  resume_loop, drain, store_pending, receive,
}
use chain_watch.Indexer.Concurrent.Rounds.{
  IsSnapshot, LeadsTo, sequel-seq_after, commit_next-LeadsTo,
}

abbrev outcome_of : BlockResult → Result BlockTransferIndex
outcome_of r = r.outcome

module _ {W : Type 0} {answer : ℕ → Result BlockTransferIndex} {client : TransferBlockClient W}
    (persistence : BlockPersistence W) (snapshot : IsSnapshot answer client) (end : ℕ)
    (fits : end < 2 ^ 64) where
  resume_loop-LeadsTo :
      (goal : Result (List BlockTransferIndex) × W) (again : Collector → W → Progress × W)
      (p : Progress × W)
      → LeadsTo persistence snapshot end goal p
      → ((c : Collector) (w : W)
          → LeadsTo persistence snapshot end goal (waiting c, w)
          → LeadsTo persistence snapshot end goal (again c w))
      → LeadsTo persistence snapshot end goal (resume_loop persistence end again p)
  resume_loop-LeadsTo goal again (waiting c, w) h keep = keep c w h
  resume_loop-LeadsTo goal again (returned r, w) h keep = h

  drain-LeadsTo :
      (goal : Result (List BlockTransferIndex) × W) (fuel : ℕ) (c : Collector) (w : W)
      → LeadsTo persistence snapshot end goal (waiting c, w)
      → LeadsTo persistence snapshot end goal (drain persistence end fuel c w)
  unfolding drain
  drain-LeadsTo goal zero c w h = h
  drain-LeadsTo goal (suc fuel) c w (leads, below, genuine) =
      elim (Option-cases (lookup c.next_commit c.pending)) [
        | inl missing ↦ rw missing (leads, below, genuine)
        | inr (r, found) ↦ rw found (
            resume_loop-LeadsTo goal _ (commit_next persistence end c r.outcome w)
              (rw
                (
                  genuine c.next_commit r found,
                  ← leads,
                  sequel-seq_after persistence snapshot end c w,
                )
                (commit_next-LeadsTo persistence snapshot end c (answer c.next_commit) w below fits
                  genuine))
              (drain-LeadsTo goal fuel))
      ]

  -- A result that is genuine keeps the way to the goal.
  pub receive-LeadsTo :
      (goal : Result (List BlockTransferIndex) × W) (r : BlockResult) (c : Collector) (w : W)
      → r.outcome ≡ answer r.block_number
      → LeadsTo persistence snapshot end goal (waiting c, w)
      → LeadsTo persistence snapshot end goal (receive persistence end r c w)
  unfolding receive
  receive-LeadsTo goal r c w true_result (leads, below, genuine) =
      drain-LeadsTo goal _ (store_pending persistence end r c) w (leads, below, insert-genuine)
    where
      insert-genuine :
          (k : ℕ) (r' : BlockResult)
          → lookup k (insert r.block_number r c.pending) ≡ some r'
          → r'.outcome ≡ answer k
      insert-genuine k r' at = elim (Bool-cases (r.block_number == k)) [
        | inl same ↦
            let there : some r ≡ some r' = sym (rw (lookup-insert, same)) ∙ at in
            let key : r.block_number ≡ k = (nat_beq_iff r.block_number k).0 same in
            let this : r ≡ r' = cc in ap outcome_of (sym this) ∙ true_result ∙ ap answer key
        | inr differ ↦ genuine k r' (sym (rw (lookup-insert, differ)) ∙ at)
      ]

-- Where the loop waits after a drain of `c`: no block below the next one is needed again, what is
-- pending above is as before, and the next block is missing.
abbrev pub Settled : Collector → Progress → Type 0
Settled c (waiting c') =
    (c.next_commit ≤ c'.next_commit)
    × ((n : ℕ) → c'.next_commit ≤ n → lookup n c'.pending ≡ lookup n c.pending)
    × (lookup c'.next_commit c'.pending ≡ none)
Settled c (returned r) = Unit

module _ {W : Type 0} (persistence : BlockPersistence W) (end : ℕ) (fits : end < 2 ^ 64) where
  -- One round moves to the next number and deletes what it took.
  abbrev Moved : Collector → Progress → Type 0
  Moved c (waiting c') =
      (c'.next_commit ≡ c.next_commit + 1)
      × (c'.next_commit ≤ end)
      × (c'.pending ≡ delete_where (λ n. n == c.next_commit) c.pending)
  Moved c (returned r) = Unit

  after_commit-Moved :
      (c : Collector) (index : BlockTransferIndex) (r : Result (Unit {0}) × W)
      → c.next_commit ≤ end
      → Moved c (after_commit persistence end c index r).0
  unfolding advance
  after_commit-Moved c index (err e, w) below = tt
  after_commit-Moved c index (ok u, w) below = elim (Bool-cases (c.next_commit == end)) [
    | inl last ↦ rw last tt
    | inr more ↦
        let smaller : c.next_commit < end = ground arith in rw more (omega arith, omega arith, refl)
  ]

  commit_next-Moved :
      (c : Collector) (r : Result BlockTransferIndex) (w : W)
      → c.next_commit ≤ end
      → Moved c (commit_next persistence end c r w).0
  unfolding commit_next
  commit_next-Moved c (err e) w below = tt
  commit_next-Moved c (ok index) w below =
      after_commit-Moved c index (commit persistence end c index w) below

  lookup-Moved :
      (c c' : Collector)
      → Moved c (waiting c')
      → (n : ℕ) → c.next_commit < n
      → lookup n c'.pending ≡ lookup n c.pending
  lookup-Moved c c' (next, below, deleted) n above =
      let other : (n == c.next_commit) ≡ false = ground arith in
      ap (lookup n) deleted
      ∙ lookup-delete_where (λ j. j == c.next_commit) n c.pending
      ∙ ap (λ (b : Bool). if b then none else lookup n c.pending) other

  resume_loop-Settled :
      (c : Collector) (again : Collector → W → Progress × W) (p : Progress × W)
      → Moved c p.0
      → ((c' : Collector) (w : W) → Moved c (waiting c') → Settled c' (again c' w).0)
      → Settled c (resume_loop persistence end again p).0
  resume_loop-Settled c again (returned r, w) moved settle = tt
  resume_loop-Settled c again (waiting c', w) moved settle = go (again c' w).0 (settle c' w moved)
    where
      go : (p : Progress) → Settled c' p → Settled c p
      go (returned r) h = tt
      go (waiting c'') (above, same, missing) = (
        omega (arith, moved.0),
        λ n high. same n high ∙ lookup-Moved c c' moved n (omega (arith, moved.0)),
        missing,
      )

  pub drain-Settled :
      (fuel : ℕ) (c : Collector) (w : W)
      → c.next_commit ≤ end
      → length c.pending < fuel
      → Settled c (drain persistence end fuel c w).0
  unfolding drain
  drain-Settled zero c w below enough = absurd (omega arith)
  drain-Settled (suc fuel) c w below enough = elim (Option-cases (lookup c.next_commit c.pending)) [
    | inl missing ↦ rw missing (omega arith, λ n above. refl, missing)
    | inr (r, found) ↦ rw found (
        resume_loop-Settled c _ (commit_next persistence end c r.outcome w)
          (commit_next-Moved c r.outcome w below)
          λ c' w' moved.
            drain-Settled fuel c' w' moved.1 (
              omega
                (arith, ap length moved.2, length-delete_where c.next_commit c.pending r found)))
  ]

  -- After a result is received the loop waits only where the next block is missing, and what is
  -- pending from there on is what was pending, with the result put in.
  pub receive-Settled :
      (r : BlockResult) (c : Collector) (w : W)
      → c.next_commit ≤ end
      → Settled (store_pending persistence end r c) (receive persistence end r c w).0
  unfolding receive
  receive-Settled r c w below =
      drain-Settled _ (store_pending persistence end r c) w below (omega arith)
