-- ===== src/Store/Blocks/Rows.antt =====
-- The rows that the DELETE of RollbackTo leaves in erc20_transfers.
use chain_watch.Prelude.{
  ℕ, ◌^◌, ◌<◌, ◌≤◌, ◌⊎◌, ◌≡◌, refl, true, false, List, [], ◌∷◌, All, inl, inr, arith, nat_eq,
}
use native.Mathlib.Decide.{dec_lt}
use chain_watch.Store.{TransferRow, signed_lt}
use chain_watch.Store.Blocks.{transfers_up_to}

-- What is left, in its order, of rows of which those above a number are gone. A pattern from 2^63 on is
-- a negative BIGINT, that is above no block.
abbrev pub LeftUpTo : ℕ → List TransferRow → List TransferRow → Type 0
LeftUpTo c [] after = after ≡ []
LeftUpTo c (row ∷ rows) after =
    ((c < row.block_number) × (row.block_number < 2 ^ 63) × LeftUpTo c rows after)
    ⊎ (((row.block_number ≤ c) ⊎ (2 ^ 63 ≤ row.block_number))
        × ((rest : List TransferRow) × (after ≡ row ∷ rest) × LeftUpTo c rows rest))

-- Block numbers of rows are 64-bit patterns.
abbrev pub RowsFit : List TransferRow → Type 0
RowsFit rows = All (λ (row : TransferRow). row.block_number < 2 ^ 64) rows

pub transfers_up_to-LeftUpTo :
    (c : ℕ) (rows : List TransferRow)
    → c < 2 ^ 63
    → RowsFit rows
    → LeftUpTo c rows (transfers_up_to c rows)
unfolding transfers_up_to
transfers_up_to-LeftUpTo c [] low fit = refl
transfers_up_to-LeftUpTo c (row ∷ rows) low (word, fit) = elim (dec_lt c row.block_number) [
  | no below ↦
      let kept : signed_lt c row.block_number ≡ false = ground arith in
      rw kept (inr (inl (omega arith), (_, refl, transfers_up_to-LeftUpTo c rows low fit)))
  | yes above ↦ elim (dec_lt row.block_number (2 ^ 63)) [
    | yes number ↦
        let gone : signed_lt c row.block_number ≡ true = ground arith in
        rw gone (inl (above, number, transfers_up_to-LeftUpTo c rows low fit))
    | no negative ↦
        let kept : signed_lt c row.block_number ≡ false = ground arith in
        rw kept (inr (inr (omega arith), (_, refl, transfers_up_to-LeftUpTo c rows low fit)))
  ]
]
