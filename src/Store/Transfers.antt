-- ===== src/Store/Transfers.antt =====
-- internal/store/postgres_transfer_store.go. The decimal text of a `big.Int` is a parameter.
pub mod Added
pub mod Inserts
use chain_watch.Prelude.{
  ℕ, suc, ◌+◌, ◌-◌, ◌^◌, ◌==◌, nat_eq, string_eq, String, Bool, true, false, ◌&&◌, ◌||◌, Option,
  none, some, List, [], ◌∷◌, ◌++◌, ltb, leb, ℤ, pos, negsuc, if◌then◌else◌,
}
use chain_watch.Errors.{GoError, Result, ok, err, text, database}
use chain_watch.Effects.{Action, pure, fail, wrapping, classifying, ◌>>=◌, ◌>>◌}
use chain_watch.Domain.{TransactionHash, Erc20Transfer, BlockTransferIndex}
use chain_watch.Store.{TransferRow, Tables, Database, statement, transaction}

-- Whether a row has the primary key (transaction_hash, log_index).
unfoldable pub has_key : TransactionHash → ℕ → List TransferRow → Bool
has_key hash log_index [] = false
has_key hash log_index (r ∷ rows) =
    (r.transaction_hash == hash && r.log_index == log_index) || has_key hash log_index rows

-- The range of INTEGER, on the pattern of a BIGINT.
unfoldable pub fits_integer : ℕ → Bool
fits_integer n = ltb n (2 ^ 31) || leb (2 ^ 64 - 2 ^ 31) n

-- The range of NUMERIC(78, 0).
unfoldable pub fits_numeric : ℤ → Bool
fits_numeric (pos n) = ltb n (10 ^ 78)
fits_numeric (negsuc n) = ltb (suc n) (10 ^ 78)

-- `INSERT ... ON CONFLICT (transaction_hash, log_index) DO NOTHING`.
unfoldable pub insert_transfer_row : ℤ → TransferRow → Tables → Result (Unit {0}) × Tables
insert_transfer_row value row t =
    if fits_integer row.log_index && fits_numeric value
    then (
      ok tt,
      record t {
        erc20_transfers =
            if has_key row.transaction_hash row.log_index t.erc20_transfers
            then t.erc20_transfers
            else t.erc20_transfers ++ row ∷ [];
      },
    )
    else (err (text "out of range"), t)

module _ (fault : ℕ → GoError) (value_text : ℤ → String) where
  unfoldable pub transfer_row : BlockTransferIndex → Erc20Transfer → ℤ → TransferRow
  transfer_row index transfer value = record {
    transaction_hash = transfer.transaction_hash;
    log_index = transfer.log_index;
    block_number = index.block_number;
    block_hash = index.block_hash;
    token_address = transfer.token;
    from_address = transfer.from;
    to_address = transfer.to;
    value = value_text value;
  }

  -- A round of the loop.
  unfoldable pub insert_transfer :
      BlockTransferIndex → Erc20Transfer → Option ℤ → Action Database (Unit {0})
  insert_transfer index transfer none = fail (text "transfer %s log %d has nil value")
  insert_transfer index transfer (some value) =
      wrapping "save transfer %s log %d"
        (statement fault (insert_transfer_row value (transfer_row index transfer value)))

  unfoldable pub insert_transfers :
      BlockTransferIndex → List Erc20Transfer → Action Database (Unit {0})
  insert_transfers index [] = pure tt
  insert_transfers index (transfer ∷ transfers) =
      insert_transfer index transfer transfer.value >> insert_transfers index transfers

  unfoldable pub insert_block_transfers : BlockTransferIndex → Action Database (Unit {0})
  insert_block_transfers index = insert_transfers index index.transfers

  unfoldable pub save_block : BlockTransferIndex → Action Database (Unit {0})
  save_block index = classifying database "save block transfers" (
      transaction fault "failed to begin transfer transaction"
        "failed to commit transfer transaction" (insert_block_transfers index))
