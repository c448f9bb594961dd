-- ===== src/Store/Transfers/Added.antt =====
-- The rows that the transfers of a block add to erc20_transfers.
use chain_watch.Prelude.{
  ℕ, ◌≡◌, ◌∙◌, ◌⊎◌, ◌↔◌, ◌==◌, refl, ap, String, Bool, true, false, ◌||◌, ◌&&◌, nat_eq, string_eq,
  some, List, [], ◌∷◌, ◌++◌, append-nil, Bool-cases, inl, inr, ℤ, arith,
}
use chain_watch.Domain.{TransactionHash, Erc20Transfer, BlockTransferIndex}
use chain_watch.Store.{TransferRow}
use chain_watch.Store.Transfers.{has_key}

or_true : (b : Bool) → (b || true) ≡ true
or_true true = refl
or_true false = refl

-- Some row has the key.
abbrev pub HasRow : TransactionHash → ℕ → List TransferRow → Type 0
HasRow h n [] = ⊥
HasRow h n (r ∷ rows) = ((r.transaction_hash ≡ h) × (r.log_index ≡ n)) ⊎ HasRow h n rows

pub has_key-HasRow :
    (h : TransactionHash) (n : ℕ) (rows : List TransferRow)
    → (has_key h n rows ≡ true) ↔ HasRow h n rows
unfolding has_key
has_key-HasRow h n [] = (λ e. cc, λ e. absurd e)
has_key-HasRow h n (r ∷ rows) =
    let rest = has_key-HasRow h n rows in
    let names = string_eq.beq_iff r.transaction_hash h in
    let places = nat_eq.beq_iff r.log_index n in
    (
      λ e. elim (Bool-cases (r.transaction_hash == h && r.log_index == n)) [
        | inl same ↦ inl (names.0 (ground arith), places.0 (ground arith))
        | inr differ ↦ inr (rest.0 (rw differ at e))
      ],
      λ found. elim found [
        | inl (a, b) ↦ rw (names.1 a, places.1 b) refl
        | inr later ↦ rw (rest.1 later) (or_true (r.transaction_hash == h && r.log_index == n))
      ],
    )

module _ (value_text : ℤ → String) (index : BlockTransferIndex) where
  -- The row of a transfer of the block.
  pub record RowOf (transfer : Erc20Transfer) (row : TransferRow) : Type 0 where
    pub own_transaction : row.transaction_hash ≡ transfer.transaction_hash
    pub own_log : row.log_index ≡ transfer.log_index
    pub of_block : row.block_number ≡ index.block_number
    pub of_hash : row.block_hash ≡ index.block_hash
    pub of_token : row.token_address ≡ transfer.token
    pub sender : row.from_address ≡ transfer.from
    pub receiver : row.to_address ≡ transfer.to
    pub amount : (v : ℤ) × (transfer.value ≡ some v) × (row.value ≡ value_text v)

  -- The rows that transfers add to `rows`, in their order: one row for each whose key has none yet.
  abbrev pub Added : List Erc20Transfer → List TransferRow → List TransferRow → Type 0
  Added [] rows added = added ≡ []
  Added (t ∷ ts) rows added =
      (HasRow t.transaction_hash t.log_index rows × Added ts rows added)
      ⊎ ((HasRow t.transaction_hash t.log_index rows → ⊥)
          × ((row : TransferRow) × (rest : List TransferRow) × RowOf t row
              × (added ≡ row ∷ rest)
              × Added ts (rows ++ row ∷ []) rest))

pub Added-cons :
    (value_text : ℤ → String) (index : BlockTransferIndex) (t : Erc20Transfer)
    (ts : List Erc20Transfer) (rows first rest : List TransferRow)
    → Added value_text index (t ∷ []) rows first
    → Added value_text index ts (rows ++ first) rest
    → Added value_text index (t ∷ ts) rows (first ++ rest)
Added-cons value_text index t ts rows first rest (inl (old, none_new)) later =
    inl (old, rw none_new (rw (none_new, append-nil rows) at later))
Added-cons value_text index t ts rows first rest (inr (new, (row, end, of, is_row, at_end))) later =
    let one : first ≡ row ∷ [] = is_row ∙ ap (λ l. row ∷ l) at_end in
    inr (new, (row, rest, of, ap (λ l. l ++ rest) one, rw one at later))
