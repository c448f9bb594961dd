-- ===== src/Indexer/Concurrent/Range.antt =====
-- `IndexRange` of the two indexers, guards and checkpoint included.
use chain_watch.Prelude.{
  ℕ, ◌^◌, ◌≤◌, ◌<◌, ◌≡◌, refl, sym, ap, ◌∙◌, inl, inr, false, Option, none, some, List, [], ltb,
  nat_beq, arith, Bool-cases, pos, ltb_false→le,
}
use chain_watch.Errors.{Result, ok, err}
use chain_watch.Effects.{pure, wrapping, proceed, ◌>>=◌}
use chain_watch.Domain.{BlockTransferIndex, BlockCheckpoint}
use chain_watch.Indexer.{TransferBlockClient, BlockPersistence, Start, resume}
use chain_watch.Indexer.Resume.{resume_bounds}
use chain_watch.Indexer.Sequential.{index_start, index_body}
use chain_watch.Indexer.Concurrent.Entry.{
  prepare, classify_concurrent, IndexRange, refused, up_to_date, indexed,
}
use chain_watch.Indexer.Concurrent.Rounds.{IsSnapshot}
use chain_watch.Indexer.Concurrent.Refines.{concurrent_refines_sequential}

module _ {W : Type 0} {answer : ℕ → Result BlockTransferIndex} {client : TransferBlockClient W}
    (persistence : BlockPersistence W) (snapshot : IsSnapshot answer client) where
  -- The rest of the sequential body, behind what both share.
  abbrev sequel_of : ℕ → Result (Option Start) × W → Result (List BlockTransferIndex) × W
  sequel_of end (ok from, w) = index_start client persistence end from w
  sequel_of end (err e, w) = (err e, w)

  nothing_left : (end : ℕ) (w : W) → index_start client persistence end none w ≡ (ok [], w)
  unfolding index_start ◌>>=◌
  nothing_left end w = refl

  body-load :
      (start end : ℕ) (r : Result (Option BlockCheckpoint) × W)
      → proceed r.0 (λ c. index_start client persistence end (resume c start end)) r.1
        ≡ sequel_of end (proceed r.0 (λ c. pure (resume c start end)) r.1)
  unfolding ◌>>=◌
  body-load start end (ok c, w) = refl
  body-load start end (err e, w) = refl

  body-prepare :
      (n start end : ℕ) (w : W)
      → 0 < n
      → index_body client persistence start end w
        ≡ sequel_of end (prepare persistence (pos n) start end w)
  unfolding index_body prepare ◌>>=◌
  body-prepare n start end w some_worker = elim (Bool-cases (ltb end start)) [
    | inl bad ↦ rw bad
    | inr good ↦
        let worker : nat_beq n 0 ≡ false = ground arith in
        rw (good, worker)
          (body-load start end (wrapping "failed to load checkpoint" persistence.load w))
  ]

  resumed_bounds :
      (start end : ℕ) (from : Start) (between : W) (r : Result (Option BlockCheckpoint) × W)
      → start ≤ end
      → end < 2 ^ 64
      → proceed r.0 (λ c. pure (resume c start end)) r.1 ≡ (ok (some from), between)
      → from.next_block ≤ end
  unfolding ◌>>=◌
  resumed_bounds start end from between (ok c, w) range fits at =
      (resume_bounds c start end from range fits (cc)).1
  resumed_bounds start end from between (err e, w) range fits at = cc

  prepared_bounds :
      (n start end : ℕ) (w between : W) (from : Start)
      → 0 < n
      → end < 2 ^ 64
      → prepare persistence (pos n) start end w ≡ (ok (some from), between)
      → from.next_block ≤ end
  unfolding prepare ◌>>=◌
  prepared_bounds n start end w between from some_worker fits at =
      elim (Bool-cases (ltb end start)) [
        | inl bad ↦ cc (rw bad at at)
        | inr good ↦
            let worker : nat_beq n 0 ≡ false = ground arith in
            resumed_bounds start end from between
              (wrapping "failed to load checkpoint" persistence.load w)
              (ltb_false→le end start good) fits (rw (good, worker) at at)
      ]

  -- For a node that answers as a snapshot, blocks below 2^64 and a positive number of workers: whatever
  -- the schedule, an IndexRange of the concurrent indexer that returns gives what the body of
  -- IndexRange of the sequential one gives, its error classified, and leaves the same world.
  pub IndexRange-agrees :
      (n start end : ℕ) (w after : W) (r : Result (List BlockTransferIndex))
      → 0 < n
      → end < 2 ^ 64
      → IndexRange client persistence (pos n) start end w r after
      → (r ≡ classify_concurrent (index_body client persistence start end w).0)
        × (after ≡ (index_body client persistence start end w).1)
  IndexRange-agrees n start end w after r some_worker fits (refused e at q) =
      let body = body-prepare n start end w some_worker ∙ ap (sequel_of end) at in
      (q ∙ ap (λ p. classify_concurrent p.0) (sym body), ap (λ p. p.1) (sym body))
  IndexRange-agrees n start end w after r some_worker fits (up_to_date at q) =
      let body =
        body-prepare n start end w some_worker ∙ ap (sequel_of end) at ∙ nothing_left end after in
      (q ∙ ap (λ p. classify_concurrent p.0) (sym body), ap (λ p. p.1) (sym body))
  IndexRange-agrees n start end w after r some_worker fits
        (indexed from between k s outcome at run done world q) =
      let body = body-prepare n start end w some_worker ∙ ap (sequel_of end) at in
      let same =
        concurrent_refines_sequential persistence snapshot end from between fits
          (prepared_bounds n start end w between from some_worker fits at) run done in
      (
        q ∙ ap (λ p. classify_concurrent p.0) (same ∙ sym body),
        sym world ∙ ap (λ p. p.1) (same ∙ sym body),
      )
