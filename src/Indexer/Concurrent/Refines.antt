-- ===== src/Indexer/Concurrent/Refines.antt =====
-- Whatever the schedule, a run of the concurrent indexer that returns has done what the sequential
-- indexer does.
use mathlib.Core.Path.{subst}
use chain_watch.Prelude.{
  ℕ, ◌+◌, ◌^◌, ◌≤◌, ◌<◌, ◌≡◌, refl, sym, ap, ◌∙◌, ◌⊎◌, inl, inr, true, none, some, List, [], ◌∷◌,
  ◌==◌, nat_eq, All, lookup, lookup-insert, arith, Bool-cases,
}
use chain_watch.Errors.{Result}
use chain_watch.Domain.{BlockTransferIndex}
use chain_watch.Indexer.{TransferBlockClient, BlockPersistence, Start}
use chain_watch.Indexer.Sequential.{index_start}
use chain_watch.Indexer.Concurrent.{
  BlockResult, Collector, waiting, returned, new_collector, store_pending, receive, System, started,
  Step, send, fetch, deliver, collect, close, Run, here, next,
}
use chain_watch.Indexer.Concurrent.Rounds.{IsSnapshot, LeadsTo}
use chain_watch.Indexer.Concurrent.Draining.{receive-LeadsTo, Settled, receive-Settled}
use chain_watch.Indexer.Concurrent.Invariant.{count, count_results, present, Sent, Answers, Inv}
use chain_watch.Indexer.Concurrent.Steps.{send-Inv, fetch-Inv, deliver-Inv}

module _ {W : Type 0} {answer : ℕ → Result BlockTransferIndex} {client : TransferBlockClient W}
    (persistence : BlockPersistence W) (snapshot : IsSnapshot answer client) (end : ℕ)
    (fits : end < 2 ^ 64) (goal : Result (List BlockTransferIndex) × W) where
  leads_from :
      (s : System W) (c : Collector)
      → s.collector ≡ waiting c
      → Inv persistence snapshot end goal s
      → LeadsTo persistence snapshot end goal (waiting c, s.world)
  leads_from s c at inv =
      subst (λ p. LeadsTo persistence snapshot end goal (p, s.world)) at inv.leads

  collect-covered :
      (s : System W) (r : BlockResult) (rest : List BlockResult) (c c' : Collector) (n : ℕ)
      → s.queue ≡ r ∷ rest
      → s.collector ≡ waiting c
      → Inv persistence snapshot end goal s
      → Settled (store_pending persistence end r c) (waiting c')
      → c'.next_commit ≤ n
      → Sent end s.producer n
      → (0 < count n s.fetching + count_results n s.finished + count_results n rest)
        ⊎ (present (lookup n c'.pending) ≡ true)
  unfolding store_pending count_results
  collect-covered s r rest c c' n queued at inv (above, same, missing) low sent =
      elim (Bool-cases (r.block_number == n)) [
        | inl this ↦ inr (rw (same n low, lookup-insert, this) refl)
        | inr other ↦
            let kept : lookup n c'.pending ≡ lookup n c.pending =
              same n low ∙ rw (lookup-insert, other) in
            elim (inv.covered c n at (omega arith) sent) [
              | inl held_before ↦ inl (ground (arith, ap (count_results n) queued))
              | inr there ↦ inr (rw kept there)
            ]
      ]

  collect-Inv :
      (s : System W) (r : BlockResult) (rest : List BlockResult) (c : Collector)
      → s.queue ≡ r ∷ rest
      → s.collector ≡ waiting c
      → Inv persistence snapshot end goal s
      → Inv persistence snapshot end goal (record s {
        queue = rest;
        collector = (receive persistence end r c s.world).0;
        world = (receive persistence end r c s.world).1;
      })
  collect-Inv s r rest c queued at inv =
      let leads = leads_from s c at inv in
      let (genuine, genuine_rest) =
        subst (All (Answers persistence snapshot end)) queued inv.queue_genuine in
      let settle = receive-Settled persistence end fits r c s.world leads.1 in
      record {
        leads = receive-LeadsTo persistence snapshot end fits goal r c s.world genuine leads;
        finished_genuine = inv.finished_genuine;
        queue_genuine = genuine_rest;
        producer_low = inv.producer_low;
        covered = λ c' n e low sent.
            collect-covered s r rest c c' n queued at inv
              (subst (Settled (store_pending persistence end r c)) e settle) low sent;
        settled = λ c' e. (subst (Settled (store_pending persistence end r c)) e settle).2;
      }

  -- The channel of results is never closed under a collector that waits.
  pub never_closes :
      (s : System W) (c : Collector)
      → s.producer ≡ none
      → s.fetching ≡ []
      → s.finished ≡ []
      → s.queue ≡ []
      → s.collector ≡ waiting c
      → Inv persistence snapshot end goal s
      → ⊥
  unfolding count count_results
  never_closes s c stopped idle sent_all empty at inv =
      let leads = leads_from s c at inv in
      let missing = inv.settled c at in
      elim (inv.covered c c.next_commit at (omega arith)
        (subst (λ p. Sent end p c.next_commit) (sym stopped) leads.1)) [
          | inl held_one ↦ omega (
            arith,
            ap (count c.next_commit) idle,
            ap (count_results c.next_commit) sent_all,
            ap (count_results c.next_commit) empty,
          )
          | inr there ↦ cc (ap (present {A = BlockResult}) missing)
        ]

  pub Step-Inv :
      {worker_count : ℕ} {s t : System W}
      → Step client persistence worker_count end s t
      → Inv persistence snapshot end goal s
      → Inv persistence snapshot end goal t
  Step-Inv (send s n at room) inv = send-Inv persistence snapshot end fits goal s n at inv
  Step-Inv (fetch s before n behind at) inv =
      fetch-Inv persistence snapshot end fits goal s before n behind at inv
  Step-Inv (deliver s before r behind at room) inv =
      deliver-Inv persistence snapshot end fits goal s before r behind at inv
  Step-Inv (collect s r rest c queued at) inv = collect-Inv s r rest c queued at inv
  Step-Inv (close s c stopped idle sent_all empty at) inv =
      absurd (never_closes s c stopped idle sent_all empty at inv)

module _ {W : Type 0} {answer : ℕ → Result BlockTransferIndex} {client : TransferBlockClient W}
    (persistence : BlockPersistence W) (snapshot : IsSnapshot answer client) (end : ℕ)
    (start : Start) (w : W) (fits : end < 2 ^ 64) (range : start.next_block ≤ end) where
  -- What the sequential indexer does from the same start.
  abbrev pub sequential : Result (List BlockTransferIndex) × W
  sequential = index_start client persistence end (some start) w

  same_collector :
      (c : Collector) → waiting (new_collector start) ≡ waiting c → new_collector start ≡ c
  same_collector c e = cc

  started-Inv : Inv persistence snapshot end sequential (started start w)
  unfolding started index_start lookup
  started-Inv = record {
    leads = (refl, range, λ k r at. cc);
    finished_genuine = tt;
    queue_genuine = tt;
    producer_low = λ p e. ground arith;
    covered = λ c n e low sent.
        absurd (omega (arith, ap (λ (d : Collector). d.next_commit) (same_collector c e)));
    settled =
        λ c e. ap (λ (d : Collector). lookup d.next_commit d.pending) (sym (same_collector c e));
  }

  pub Run-Inv :
      {worker_count k : ℕ} {s : System W}
      → Run client persistence worker_count end (started start w) k s
      → Inv persistence snapshot end sequential s
  Run-Inv here = started-Inv
  Run-Inv (next run step) = Step-Inv persistence snapshot end fits sequential step (Run-Inv run)

  -- Whatever the number of workers and the order in which they fetch, deliver and are collected: when
  -- IndexRange returns, its result, the error included, and the store are those of the sequential
  -- indexer.
  pub concurrent_refines_sequential :
      {worker_count k : ℕ} {s : System W} {r : Result (List BlockTransferIndex)}
      → Run client persistence worker_count end (started start w) k s
      → s.collector ≡ returned r
      → ◌≡◌ {A = Result (List BlockTransferIndex) × W} (r, s.world) sequential
  concurrent_refines_sequential {s} run at =
      subst (λ p. LeadsTo persistence snapshot end sequential (p, s.world)) at (Run-Inv run).leads
