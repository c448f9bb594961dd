-- ===== src/Indexer/Sequential/Range.antt =====
-- The loop over a range: it ends, it does what `index_all` does on the numbers of the range, and what
-- it commits is the range in order, up to the first failure.
use chain_watch.Prelude.{
  ℕ, zero, suc, ◌+◌, ◌^◌, ◌<◌, ◌≡◌, refl, sym, ◌∙◌, false, List, [], ◌∷◌, ◌++◌, append_assoc,
  append-nil, ◌==◌, nat_eq, string_eq, if◌then◌else◌, arith, nat_beq_iff,
}
use chain_watch.Errors.{Result, ok, err}
use chain_watch.Effects.{Action, pure, ◌>>=◌, bind-ext}
use chain_watch.Domain.{BlockHash, BlockTransferIndex, u64}
use chain_watch.Indexer.{TransferBlockClient, BlockPersistence}
use chain_watch.Indexer.History.{count_up}
use chain_watch.Indexer.Sequential.{index_block, index_from}
use chain_watch.Indexer.Sequential.Blocks.{index_all}

module _ {W : Type 0} (client : TransferBlockClient W) (persistence : BlockPersistence W) where
  abbrev pub behind :
      List BlockTransferIndex
      → Result (List BlockTransferIndex) × W
      → Result (List BlockTransferIndex) × W
  behind done (ok rest, w) = (ok (done ++ rest), w)
  behind done (err e, w) = (err e, w)

  index_all-cons :
      (n : ℕ) (ns : List ℕ) (expected : BlockHash) (done : List BlockTransferIndex) (w : W)
      → behind done (index_all client persistence (n ∷ ns) expected w)
        ≡ (index_block client persistence n expected >>= λ index w'.
              behind (done ++ index ∷ []) (index_all client persistence ns index.block_hash w'))
            w
  unfolding index_all ◌>>=◌
  index_all-cons n ns expected done w = go (index_block client persistence n expected w)
    where
      finish :
          (index : BlockTransferIndex) (r : Result (List BlockTransferIndex) × W)
          → behind done (((λ (_ : W). r) >>= λ rest. pure (index ∷ rest)) w)
            ≡ behind (done ++ index ∷ []) r
      finish index (ok rest, after) = rw append_assoc
      finish index (err e, after) = refl

      go :
          (r : Result BlockTransferIndex × W)
          → behind done (
              ((λ (_ : W). r) >>= λ index.
              index_all client persistence ns index.block_hash >>= λ rest. pure (index ∷ rest))
                w)
            ≡ ((λ (_ : W). r) >>= λ index w'.
                  behind (done ++ index ∷ []) (index_all client persistence ns index.block_hash w'))
                w
      go (ok index, after) = finish index (index_all client persistence ns index.block_hash after)
      go (err e, after) = refl

  -- What follows the commit of block `n`.
  abbrev after_block :
      ℕ → ℕ → ℕ → List BlockTransferIndex → BlockTransferIndex → Action W (List BlockTransferIndex)
  after_block fuel end n done index =
      let rest =
        index_from client persistence fuel end (u64 (n + 1)) index.block_hash
          (done ++ index ∷ []) in
      if n == end then pure (done ++ index ∷ []) else rest

  after_last :
      (fuel end n : ℕ) (done : List BlockTransferIndex) (index : BlockTransferIndex) (w : W)
      → n ≡ end
      → after_block fuel end n done index w
        ≡ behind (done ++ index ∷ []) (index_all client persistence [] index.block_hash w)
  unfolding index_all ◌>>=◌
  after_last fuel end n done index w same = rw ((nat_beq_iff n end).1 same) (rw append-nil)

  after_earlier :
      (fuel end n : ℕ) (done : List BlockTransferIndex) (index : BlockTransferIndex) (w : W)
      → n < end
      → end < 2 ^ 64
      → after_block fuel end n done index w
        ≡ index_from client persistence fuel end (n + 1) index.block_hash (done ++ index ∷ []) w
  after_earlier fuel end n done index w below fits =
      let differ : (n == end) ≡ false = ground arith in
      let exact : u64 (n + 1) ≡ n + 1 = omega arith in rw (differ, exact)

  -- The loop is `index_all` on n, n + 1, ..., end, given more fuel than there are rounds left.
  pub index_from-index_all :
      (k n end fuel : ℕ) (expected : BlockHash) (done : List BlockTransferIndex) (w : W)
      → n + k ≡ end
      → end < 2 ^ 64
      → k < fuel
      → index_from client persistence fuel end n expected done w
        ≡ behind done (index_all client persistence (count_up n k) expected w)
  unfolding index_from
  index_from-index_all k n end zero expected done w sum fits enough = absurd (omega arith)
  index_from-index_all zero n end (suc fuel) expected done w sum fits enough =
      bind-ext (index_block client persistence n expected) (after_block fuel end n done) _ w
        (λ index after. after_last fuel end n done index after (omega arith))
      ∙ sym (index_all-cons n [] expected done w)
  index_from-index_all (suc k) n end (suc fuel) expected done w sum fits enough =
      bind-ext (index_block client persistence n expected) (after_block fuel end n done) _ w
        (λ index after.
          after_earlier fuel end n done index after (omega arith) fits
          ∙ index_from-index_all k (n + 1) end fuel index.block_hash (done ++ index ∷ []) after
              (omega arith) fits (omega arith))
      ∙ sym (index_all-cons n (count_up (n + 1) k) expected done w)
