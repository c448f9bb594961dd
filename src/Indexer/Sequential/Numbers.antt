-- ===== src/Indexer/Sequential/Numbers.antt =====
-- The numbers of the blocks that a range returns.
use chain_watch.Prelude.{
  ℕ, suc, ◌-◌, ◌^◌, ◌≤◌, ◌<◌, ◌≡◌, ◌⊎◌, ◌∙◌, refl, inl, inr, Option, none, some, List, [], ◌∷◌,
  Bool-cases, ltb, ltb_false→le, arith,
}
use chain_watch.Errors.{Result, ok, err}
use chain_watch.Effects.Ends.{
  Ends, Ends-pure, Ends-fail, Ends-give, Ends-wrapping, Ends-bind, Ends-mono,
}
use chain_watch.Domain.{BlockHash, BlockTransferIndex}
use chain_watch.Indexer.{TransferBlockClient, BlockPersistence, Start, resume}
use chain_watch.Indexer.Resume.{resume_bounds}
use chain_watch.Indexer.History.{AnswersNumbers, count_up, numbers}
use chain_watch.Indexer.Sequential.{index_block, index_start, index_body}
use chain_watch.Indexer.Sequential.Blocks.{index_all}
use chain_watch.Indexer.Sequential.Range.{behind, index_from-index_all}

-- No blocks, or one of each number from one in the range up to its end, in order.
abbrev pub UpTo : ℕ → ℕ → List BlockTransferIndex → Type 0
UpTo start end blocks =
    (blocks ≡ [])
    ⊎ ((first : ℕ) × (start ≤ first)
        × (first ≤ end)
        × (numbers blocks ≡ count_up first (end - first)))

module _ {W : Type 0} {client : TransferBlockClient W} (persistence : BlockPersistence W)
    (answers : AnswersNumbers client) where
  index_block-number :
      (n : ℕ) (expected : BlockHash) (w : W)
      → Ends
          (λ index _. index.block_number ≡ n)
          (λ _. Unit)
          (index_block client persistence n expected w)
  unfolding index_block
  index_block-number n expected w =
      Ends-bind (λ block _. block.number ≡ n) _ _ w
        (Ends-wrapping _ _ w (record {
          returns = λ block got. answers.number_of_block n w block got;
          fails = λ e h. tt;
        }))
        λ block w₁ at.
          Ends-bind (λ index _. index.block_number ≡ n) _ _ w₁
            (Ends-wrapping _ _ w₁ (record {
              returns = λ index got. answers.number_of_index block w₁ index got ∙ at;
              fails = λ e h. tt;
            }))
            λ index w₂ same.
              Ends-bind (λ _ _. Unit) _ _ w₂ (Ends-give _ w₂ (λ a h. tt) tt)
                λ _ w₃ _.
                  Ends-bind (λ _ _. Unit) _ _ w₃
                    (Ends-wrapping _ _ w₃ (record { returns = λ a h. tt; fails = λ e h. tt }))
                    λ _ w₄ _. Ends-pure index w₄ same

  index_all-numbers :
      (ns : List ℕ) (expected : BlockHash) (w : W)
      → Ends
          (λ blocks _. numbers blocks ≡ ns)
          (λ _. Unit)
          (index_all client persistence ns expected w)
  unfolding index_all
  index_all-numbers [] expected w = Ends-pure [] w refl
  index_all-numbers (n ∷ ns) expected w =
      Ends-bind (λ index _. index.block_number ≡ n) _ _ w (index_block-number n expected w)
        λ index w₁ one.
          Ends-bind (λ rest _. numbers rest ≡ ns) _ _ w₁ (index_all-numbers ns index.block_hash w₁)
            λ rest w₂ same. Ends-pure (index ∷ rest) w₂ (cc (one, same))

  behind-numbers :
      (ns : List ℕ) (r : Result (List BlockTransferIndex) × W)
      → Ends (λ blocks _. numbers blocks ≡ ns) (λ _. Unit) r
      → Ends (λ blocks _. numbers blocks ≡ ns) (λ _. Unit) (behind client persistence [] r)
  behind-numbers ns (ok rest, w) h = h
  behind-numbers ns (err e, w) h = h

  started-UpTo :
      (found : Option Start) (start end : ℕ) (w : W)
      → ((s : Start) → found ≡ some s → (start ≤ s.next_block) × (s.next_block ≤ end))
      → end < 2 ^ 64
      → Ends
          (λ blocks _. UpTo start end blocks)
          (λ _. Unit)
          (index_start client persistence end found w)
  unfolding index_start
  started-UpTo none start end w bounds fits = Ends-pure [] w (inl refl)
  started-UpTo (some s) start end w bounds fits =
      let (above, below) = bounds s refl in
      rw
        (index_from-index_all client persistence (end - s.next_block) s.next_block end
          (suc (end - s.next_block)) s.expected_parent_hash [] w (omega arith) fits (omega arith))
        (Ends-mono _
          (behind-numbers (count_up s.next_block (end - s.next_block)) _ (
            index_all-numbers (count_up s.next_block (end - s.next_block)) s.expected_parent_hash
              w))
          (λ blocks _ same. inr (s.next_block, above, below, same)) (λ _ h. tt))

  -- The body of the sequential IndexRange returns blocks that number a last part of the range.
  pub index_body-UpTo :
      (start end : ℕ) (w : W)
      → end < 2 ^ 64
      → Ends
          (λ blocks _. UpTo start end blocks)
          (λ _. Unit)
          (index_body client persistence start end w)
  unfolding index_body
  index_body-UpTo start end w fits = elim (Bool-cases (ltb end start)) [
    | inl bad ↦ rw bad (Ends-fail _ w tt)
    | inr good ↦ rw good (
        Ends-bind (λ _ _. Unit) _ _ w
          (Ends-wrapping _ _ w (record { returns = λ a h. tt; fails = λ e h. tt }))
          λ found w₁ _.
            started-UpTo (resume found start end) start end w₁
              (λ s at. resume_bounds found start end s (ltb_false→le end start good) fits at) fits)
  ]
