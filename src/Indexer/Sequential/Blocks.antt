-- ===== src/Indexer/Sequential/Blocks.antt =====
-- The loop of the sequential indexer, block by block: the reference that both indexers meet.
use chain_watch.Prelude.{
  ℕ, ◌≡◌, refl, sym, ◌∙◌, List, [], ◌∷◌, ◌++◌, append_assoc, append-nil, nat_eq, string_eq, eq_iff,
  arith,
}
use chain_watch.Errors.{ok}
use chain_watch.Effects.{Action, pure, ◌>>=◌}
use chain_watch.Effects.Ends.{Ends, Ends-pure, Ends-give, Ends-wrapping, Ends-bind, Ends-mono}
use chain_watch.Domain.{BlockHash, BlockTransferIndex, ObservedBlock}
use chain_watch.Indexer.{TransferBlockClient, BlockPersistence, validate_parent_hash}
use chain_watch.Indexer.History.{AnswersNumbers, Commits, Follows, Whole, Stopped}
use chain_watch.Indexer.Sequential.{index_block}

pub validate_parent_hash-Follows :
    (n : ℕ) (index : BlockTransferIndex) (expected : BlockHash)
    → validate_parent_hash n index.parent_hash expected ≡ ok tt
    → Follows expected index
unfolding validate_parent_hash
validate_parent_hash-Follows n index expected h =
    ground
      (arith, eq_iff index.parent_hash "", eq_iff expected "", eq_iff index.parent_hash expected)

module _ {W : Type 0} (client : TransferBlockClient W) (persistence : BlockPersistence W) where
  -- One block after another over a list of numbers, stopping at the first error.
  unfoldable pub index_all : List ℕ → BlockHash → Action W (List BlockTransferIndex)
  index_all [] expected = pure []
  index_all (n ∷ ns) expected = do
    index ← index_block client persistence n expected
    rest ← index_all ns index.block_hash
    pure (index ∷ rest)

module _ {W : Type 0} {client : TransferBlockClient W} {persistence : BlockPersistence W}
    (commits : Commits client persistence) (answers : AnswersNumbers client) where
  open commits use {history}

  -- Block `n` was committed behind what `w` held, and it may follow `expected`.
  abbrev pub CommitsOne : ℕ → BlockHash → W → BlockTransferIndex → W → Type 0
  CommitsOne n expected w index after =
      (history after ≡ history w ++ index ∷ []) × Follows expected index × (index.block_number ≡ n)

  fetch_block-Ends :
      (n : ℕ) (w : W)
      → Ends
          (λ block after. (history after ≡ history w) × (block.number ≡ n))
          (λ after. history after ≡ history w)
          (client.get_observed_block_by_number n w)
  fetch_block-Ends n w = record {
    returns = λ block got. (commits.history_get_block n w, answers.number_of_block n w block got);
    fails = λ e failed. commits.history_get_block n w;
  }

  fetch_index-Ends :
      (block : ObservedBlock) (w : W)
      → Ends
          (λ index after. (history after ≡ history w) × (index.block_number ≡ block.number))
          (λ after. history after ≡ history w)
          (client.get_erc20_transfers_by_block block w)
  fetch_index-Ends block w = record {
    returns = λ index got.
        (commits.history_get_transfers block w, answers.number_of_index block w index got);
    fails = λ e failed. commits.history_get_transfers block w;
  }

  save-Ends :
      (index : BlockTransferIndex) (w : W)
      → Ends
          (λ _ after. history after ≡ history w ++ index ∷ [])
          (λ after. history after ≡ history w)
          (persistence.save_indexed_block index w)
  save-Ends index w = record {
    returns = λ u saved. commits.history_save_ok index w saved;
    fails = commits.history_save_err index w;
  }

  pub index_block-Ends :
      (n : ℕ) (expected : BlockHash) (w : W)
      → Ends
          (CommitsOne n expected w)
          (λ after. history after ≡ history w)
          (index_block client persistence n expected w)
  unfolding index_block
  index_block-Ends n expected w =
      Ends-bind _ _ _ w (Ends-wrapping _ _ w (fetch_block-Ends n w)) λ block w₁ got.
        Ends-bind (λ index after. (history after ≡ history w) × (index.block_number ≡ n)) _ _ w₁
          (Ends-wrapping _ _ w₁ (
            Ends-mono _ (fetch_index-Ends block w₁)
              (λ index after found. (found.0 ∙ got.0, found.1 ∙ got.1))
              (λ after kept. kept ∙ got.0)))
          λ index w₂ found.
            Ends-bind (λ _ after. (history after ≡ history w) × Follows expected index) _ _ w₂
              (Ends-give _ w₂
                (λ _ valid.
                  (found.0, validate_parent_hash-Follows index.block_number index expected valid))
                found.0)
              λ _ w₃ valid.
                Ends-bind (λ _ after. history after ≡ history w ++ index ∷ []) _ _ w₃
                  (Ends-wrapping _ _ w₃ (
                    Ends-mono _ (save-Ends index w₃) (λ _ after saved. rw (← valid.0) saved)
                      (λ after kept. kept ∙ valid.0)))
                  λ _ w₄ saved. Ends-pure index w₄ (saved, valid.1, found.1)

  cons-Whole :
      (n : ℕ) (ns : List ℕ) (expected : BlockHash) (w₁ w₂ w₃ : W) (index : BlockTransferIndex)
      (rest : List BlockTransferIndex)
      → CommitsOne n expected w₁ index w₂
      → Whole ns index.block_hash (history w₂) rest (history w₃)
      → Whole (n ∷ ns) expected (history w₁) (index ∷ rest) (history w₃)
  cons-Whole n ns expected w₁ w₂ w₃ index rest (saved, follows, number) whole = record {
    committed = whole.committed ∙ rw (saved, append_assoc);
    linked = (follows, whole.linked);
    in_order = cc (whole.in_order);
  }

  cons-Stopped :
      (n : ℕ) (ns : List ℕ) (expected : BlockHash) (w₁ w₂ w₃ : W) (index : BlockTransferIndex)
      → CommitsOne n expected w₁ index w₂
      → Stopped ns index.block_hash (history w₂) (history w₃)
      → Stopped (n ∷ ns) expected (history w₁) (history w₃)
  cons-Stopped n ns expected w₁ w₂ w₃ index (saved, follows, number) stopped = record {
    blocks = index ∷ stopped.blocks;
    committed = stopped.committed ∙ rw (saved, append_assoc);
    linked = (follows, stopped.linked);
    in_order = cc (stopped.in_order);
    fewer = omega (arith, stopped.fewer);
  }

  none-Stopped :
      (n : ℕ) (ns : List ℕ) (expected : BlockHash) (w₁ w₂ : W)
      → history w₂ ≡ history w₁
      → Stopped (n ∷ ns) expected (history w₁) (history w₂)
  none-Stopped n ns expected w₁ w₂ kept = record {
    blocks = [];
    committed = kept ∙ sym (append-nil (history w₁));
    linked = tt;
    in_order = refl;
    fewer = omega arith;
  }

  pub index_all-Ends :
      (ns : List ℕ) (expected : BlockHash) (w : W)
      → Ends
          (λ blocks after. Whole ns expected (history w) blocks (history after))
          (λ after. Stopped ns expected (history w) (history after))
          (index_all client persistence ns expected w)
  unfolding index_all
  index_all-Ends [] expected w =
      Ends-pure [] w
        (record { committed = sym (append-nil (history w)); linked = tt; in_order = refl })
  index_all-Ends (n ∷ ns) expected w =
      Ends-bind (CommitsOne n expected w) _ _ w
        (Ends-mono _ (index_block-Ends n expected w) (λ index after one. one)
          (λ after kept. none-Stopped n ns expected w after kept))
        λ index w₁ one.
          Ends-bind
            (λ rest after. Whole (n ∷ ns) expected (history w) (index ∷ rest) (history after)) _ _
            w₁
            (Ends-mono _ (index_all-Ends ns index.block_hash w₁)
              (λ rest after whole. cons-Whole n ns expected w w₁ after index rest one whole)
              (λ after stopped. cons-Stopped n ns expected w w₁ after index one stopped))
            λ rest w₂ whole. Ends-pure (index ∷ rest) w₂ whole
