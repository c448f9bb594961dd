-- ===== src/Indexer/Concurrent/Steps.antt =====
-- Every step keeps the invariant, and the last step of an unfinished run never comes.
use chain_watch.Prelude.{
  ℕ, ◌+◌, ◌^◌, ◌≤◌, ◌<◌, ◌≡◌, refl, ap, ◌⊎◌, inl, inr, Bool, true, some, List, [], ◌∷◌, ◌++◌, ◌==◌,
  nat_eq, All, All-append, All-remove, lookup, arith, Bool-cases, nat_beq_iff,
}
use mathlib.Core.Path.{subst}
use chain_watch.Errors.{Result}
use chain_watch.Domain.{BlockTransferIndex, u64}
use chain_watch.Indexer.{TransferBlockClient, BlockPersistence}
use chain_watch.Indexer.Concurrent.{
  BlockResult, process_block, Collector, waiting, System, after_send,
}
use chain_watch.Indexer.Concurrent.Rounds.{IsSnapshot}
use chain_watch.Indexer.Concurrent.Invariant.{
  count, count_results, count_middle, count_results_middle, count_results_last, present, Sent, held,
  Answers, Inv,
}

module _ {W : Type 0} {answer : ℕ → Result BlockTransferIndex} {client : TransferBlockClient W}
    (persistence : BlockPersistence W) (snapshot : IsSnapshot answer client) (end : ℕ)
    (fits : end < 2 ^ 64) (goal : Result (List BlockTransferIndex) × W) where
  pub process_block-snapshot :
      (n : ℕ) (w : W)
      → process_block client n w ≡ (record { block_number = n; outcome = answer n }, w)
  unfolding process_block
  process_block-snapshot n w = rw (snapshot.answers n w)

  Sent-after_send : (p n : ℕ) → p ≤ end → Sent end (after_send end p) n → n ≤ p
  unfolding after_send
  Sent-after_send p n low h = elim (Bool-cases (p == end)) [
    | inl last ↦
        let at_most : n ≤ end = rw last at h in
        let same : p ≡ end = (nat_beq_iff p end).0 last in omega arith
    | inr more ↦ let below : n < u64 (p + 1) = rw more at h in omega arith
  ]

  pub producer_low-after_send : (p q : ℕ) → p ≤ end → after_send end p ≡ some q → q ≤ end
  unfolding after_send
  producer_low-after_send p q low e = ground arith

  -- A block that was held or pending still is, where no count went down.
  still_held : (a b : ℕ) {c : Bool} → (0 < a) ⊎ (c ≡ true) → a ≤ b → (0 < b) ⊎ (c ≡ true)
  still_held a b (inl held) le = inl (omega arith)
  still_held a b (inr there) le = inr there

  send-covered :
      (s : System W) (p : ℕ) (c : Collector) (n : ℕ)
      → s.producer ≡ some p
      → Inv persistence snapshot end goal s
      → s.collector ≡ waiting c
      → c.next_commit ≤ n
      → Sent end (after_send end p) n
      → (0 < count n (p ∷ s.fetching) + count_results n s.finished + count_results n s.queue)
        ⊎ (present (lookup n c.pending) ≡ true)
  unfolding count
  send-covered s p c n at inv e low sent = elim (Bool-cases (p == n)) [
    | inl same ↦ inl (rw same (omega arith))
    | inr differ ↦
        let most : n ≤ p = Sent-after_send p n (inv.producer_low p at) sent in
        let before : n < p = ground arith in rw differ (inv.covered c n e low (rw at before))
  ]

  pub send-Inv :
      (s : System W) (p : ℕ)
      → s.producer ≡ some p
      → Inv persistence snapshot end goal s
      → Inv persistence snapshot end goal
          (record s { producer = after_send end p; fetching = p ∷ s.fetching })
  send-Inv s p at inv = record {
    leads = inv.leads;
    finished_genuine = inv.finished_genuine;
    queue_genuine = inv.queue_genuine;
    producer_low = λ q e. producer_low-after_send p q (inv.producer_low p at) e;
    covered = λ c n e low sent. send-covered s p c n at inv e low sent;
    settled = inv.settled;
  }

  -- The block that was fetched is counted among the results.
  count-fetched :
      (n k : ℕ) (s : System W) (before behind : List ℕ) (o : Result BlockTransferIndex)
      → s.fetching ≡ before ++ k ∷ behind
      → held n s
        ≤ count n (before ++ behind)
          + count_results n (record { block_number = k; outcome = o } ∷ s.finished)
          + count_results n s.queue
  unfolding count count_results
  count-fetched n k s before behind o at =
      ground (arith, ap (count n) at, count_middle n k before behind)

  pub fetch-Inv :
      (s : System W) (before : List ℕ) (k : ℕ) (behind : List ℕ)
      → s.fetching ≡ before ++ k ∷ behind
      → Inv persistence snapshot end goal s
      → Inv persistence snapshot end goal (record s {
        fetching = before ++ behind;
        finished = (process_block client k s.world).0 ∷ s.finished;
        world = (process_block client k s.world).1;
      })
  fetch-Inv s before k behind at inv = rw (process_block-snapshot k s.world) (record {
    leads = inv.leads;
    finished_genuine = (refl, inv.finished_genuine);
    queue_genuine = inv.queue_genuine;
    producer_low = inv.producer_low;
    covered = λ c n e low sent.
        still_held _ _ (inv.covered c n e low sent)
          (count-fetched n k s before behind (answer k) at);
    settled = inv.settled;
  })

  count-delivered :
      (n : ℕ) (r : BlockResult) (s : System W) (before behind : List BlockResult)
      → s.finished ≡ before ++ r ∷ behind
      → held n s
        ≤ count n s.fetching
          + count_results n (before ++ behind)
          + count_results n (s.queue ++ r ∷ [])
  count-delivered n r s before behind at = omega (
    arith,
    ap (count_results n) at,
    count_results_middle n r before behind,
    count_results_last n r s.queue,
  )

  pub deliver-Inv :
      (s : System W) (before : List BlockResult) (r : BlockResult) (behind : List BlockResult)
      → s.finished ≡ before ++ r ∷ behind
      → Inv persistence snapshot end goal s
      → Inv persistence snapshot end goal
          (record s { finished = before ++ behind; queue = s.queue ++ r ∷ [] })
  deliver-Inv s before r behind at inv =
      let (rest, genuine) =
        All-remove _ before r behind
          (subst (All (Answers persistence snapshot end)) at inv.finished_genuine) in
      record {
        leads = inv.leads;
        finished_genuine = rest;
        queue_genuine = All-append _ s.queue (r ∷ []) inv.queue_genuine (genuine, tt);
        producer_low = inv.producer_low;
        covered = λ c n e low sent.
            still_held _ _ (inv.covered c n e low sent) (count-delivered n r s before behind at);
        settled = inv.settled;
      }
