-- ===== src/Continuous/Cycles.antt =====
-- What a cycle indexes and how the loop ends.
use chain_watch.Prelude.{
  not_positive, ℕ, ◌+◌, ◌-◌, ◌^◌, ◌≤◌, ◌<◌, ◌≡◌, ◌⊎◌, ◌∙◌, refl, sym, false, Option, some, List, [],
  ◌∷◌, Bool-cases, inl, inr, ltb, ltb_false→le, pos, arith,
}
use chain_watch.Errors.{GoError, Result, ok, err, nil, canceled, is, is_nil}
use chain_watch.Effects.Ends.{Ends, Ends-pure, Ends-wrapping}
use chain_watch.Domain.{BlockTransferIndex, ObservedBlock}
use chain_watch.Indexer.{TransferBlockClient, BlockPersistence}
use chain_watch.Indexer.History.{AnswersNumbers}
use chain_watch.Indexer.Sequential.{index_body}
use chain_watch.Indexer.Sequential.Numbers.{UpTo, index_body-UpTo}
use chain_watch.Indexer.Concurrent.Entry.{IndexRange, classify_concurrent}
use chain_watch.Indexer.Concurrent.Rounds.{IsSnapshot}
use chain_watch.Indexer.Concurrent.Range.{IndexRange-agrees}
use chain_watch.Continuous.{
  Sources, ContinuousIndexer, Wakeup, stop, tick, index_confirmed, after_cycle,
  run_cycle_and_handle, poll, run,
}

-- What a cycle returns behind a head: nothing where the start block is not confirmed yet; else what the
-- range indexer returns for the range up to the block that lies the depth below the head.
abbrev pub Cycled :
    {W : Type 0}
    → Sources W
    → ContinuousIndexer
    → ObservedBlock
    → W
    → List BlockTransferIndex
    → Type 0
Cycled sources c latest w blocks =
    ((latest.number < c.start_block + c.confirmation_depth) × (blocks ≡ []))
    ⊎ ((end : ℕ) × (end + c.confirmation_depth ≡ latest.number)
        × (c.start_block ≤ end)
        × ((sources.index_range c.start_block end w).0 ≡ ok blocks)
        × UpTo c.start_block end blocks)

module _ {W : Type 0} {answer : ℕ → Result BlockTransferIndex} {client : TransferBlockClient W}
    (persistence : BlockPersistence W) (snapshot : IsSnapshot answer client)
    (answers : AnswersNumbers client) where
  range-UpTo :
      (n start end : ℕ) (w : W) (r : Result (List BlockTransferIndex) × W)
      → 0 < n
      → end < 2 ^ 64
      → IndexRange client persistence (pos n) start end w r.0 r.1
      → Ends (λ blocks _. UpTo start end blocks) (λ _. Unit) r
  range-UpTo n start end w r some_worker fits range = record {
    returns = λ blocks at. (index_body-UpTo persistence answers start end w fits).returns blocks (
        classified (index_body client persistence start end w).0 blocks (
          sym at
          ∙ (IndexRange-agrees persistence snapshot n start end w r.1 r.0 some_worker fits
              range).0));
    fails = λ e h. tt;
  }
    where
      classified :
          (body : Result (List BlockTransferIndex)) (blocks : List BlockTransferIndex)
          → ok blocks ≡ classify_concurrent body
          → body ≡ ok blocks
      classified (ok found) blocks e = cc
      classified (err x) blocks e = cc

  -- With the concurrent indexer as its range indexer, on a node that answers as a snapshot and with the
  -- numbers that it was asked for, a positive number of workers and a head below 2^64: a cycle returns no
  -- blocks if the start block does not lie the confirmation depth below the head yet. Otherwise it returns
  -- the blocks that the indexer returns for the range from the start block to the block that lies exactly
  -- the depth below the head, and these number, in order and without a gap, from some block of the range
  -- up to its end, or there are none; and it fails only if the indexer fails on that range.
  pub index_confirmed-Ends :
      (sources : Sources W) (c : ContinuousIndexer) (n : ℕ) (latest : ObservedBlock) (w : W)
      → 0 < n
      → latest.number < 2 ^ 64
      → IndexRange client persistence
          (pos n)
          c.start_block
          (latest.number - c.confirmation_depth)
          w
          (sources.index_range c.start_block (latest.number - c.confirmation_depth) w).0
          (sources.index_range c.start_block (latest.number - c.confirmation_depth) w).1
      → Ends
          (λ blocks after. Cycled sources c latest w blocks)
          (λ after.
            (c.start_block + c.confirmation_depth ≤ latest.number)
            × ((e : GoError) × ((sources.index_range c.start_block
                    (latest.number - c.confirmation_depth)
                    w).0
                  ≡ err e)))
          (index_confirmed sources c latest w)
  unfolding index_confirmed
  index_confirmed-Ends sources c n latest w some_worker fits range =
      elim (Bool-cases (ltb latest.number c.confirmation_depth)) [
        | inl low ↦ rw low (Ends-pure [] w (inl (ground arith, refl)))
        | inr high ↦ elim (Bool-cases (ltb (latest.number - c.confirmation_depth) c.start_block)) [
          | inl early ↦ rw (high, early) (Ends-pure [] w (inl (ground arith, refl)))
          | inr due ↦
              let deep = ltb_false→le latest.number c.confirmation_depth high in
              let below = ltb_false→le (latest.number - c.confirmation_depth) c.start_block due in
              let up = range-UpTo n c.start_block _ w _ some_worker (omega arith) range in
              rw (high, due)
                (Ends-wrapping _ _ w (record {
                  returns =
                      λ blocks at. inr (_, omega (arith, deep), below, at, up.returns blocks at);
                  fails = λ e at. (omega (arith, deep, below), (e, at));
                }))
        ]
      ]

module _ {W : Type 0} (sources : Sources W) (c : ContinuousIndexer) where
  -- The error that Run ends with, if it has ended, is not a cancellation.
  abbrev NotCanceled : Option GoError × W → Type 0
  NotCanceled r = (e : GoError) → r.0 ≡ some e → is e canceled ≡ false

  ended : (w : W) (e : GoError) → is e canceled ≡ false → NotCanceled (some e, w)
  ended w e fine x at = cc

  after_cycle-NotCanceled :
      (again : W → Option GoError × W)
      → ((w : W) → NotCanceled (again w))
      → (r : GoError × W) → NotCanceled (after_cycle sources c again r)
  unfolding is
  after_cycle-NotCanceled again next (e, w) = elim (Bool-cases (is_nil e)) [
    | inl fine ↦ rw fine (next w)
    | inr failed ↦ elim (Bool-cases (is e canceled)) [
      | inl stopped ↦ rw (failed, stopped) (ended w nil refl)
      | inr other ↦ rw (failed, other) (ended w e other)
    ]
  ]

  poll-NotCanceled :
      (handler : Option (BlockTransferIndex → W → W)) (wakeups : List Wakeup) (w : W)
      → NotCanceled (poll sources c handler wakeups w)
  unfolding poll is
  poll-NotCanceled handler [] w = λ e at. cc
  poll-NotCanceled handler (stop ∷ rest) w = ended w nil refl
  poll-NotCanceled handler (tick ∷ rest) w =
      after_cycle-NotCanceled (poll sources c handler rest)
        (λ after. poll-NotCanceled handler rest after) (run_cycle_and_handle sources c handler w)

  -- However the loop wakes up, an error that Run returns is not a cancellation.
  run-NotCanceled :
      (handler : Option (BlockTransferIndex → W → W)) (wakeups : List Wakeup) (w : W) (e : GoError)
      → (run sources c handler wakeups w).0 ≡ some e
      → is e canceled ≡ false
  unfolding run is
  run-NotCanceled handler wakeups w = elim (Bool-cases (not_positive c.poll_interval)) [
    | inl refused ↦ rw refused (ended w _ refl)
    | inr fine ↦ rw fine (
        after_cycle-NotCanceled (poll sources c handler wakeups)
          (λ after. poll-NotCanceled handler wakeups after)
          (run_cycle_and_handle sources c handler w))
  ]
