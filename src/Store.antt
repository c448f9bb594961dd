-- ===== src/Store.antt =====
-- internal/store over the tables of migrations/: a SQL statement is what it does to the tables. A column
-- of type BIGINT holds the 64-bit pattern of its number, so `int64(n)` of a uint64 is `n` itself, and
-- the patterns from 2 ^ 63 on are the negative ones. The columns that only hold times are left out.
--
-- Any statement may fail: `fault k` is the error of the k-th one, nil if it is carried out. A statement
-- that fails has done nothing, and a transaction that is not committed is undone. No other client
-- writes to the tables meanwhile.
pub mod Rules
pub mod Checkpoint
pub mod Transfers
pub mod Blocks
pub mod Valid
pub mod Reader
pub mod Tokens
use chain_watch.Prelude.{
  ℕ, ◌+◌, ◌%◌, ◌^◌, String, Bool, true, false, List, [], leb, ltb, if◌then◌else◌,
}
use chain_watch.Errors.{GoError, is_nil, Result, ok, err, wrapped}
use chain_watch.Effects.{Action}
use chain_watch.Domain.{BlockHash, BlockCheckpoint, Address, TransactionHash}

-- A row of indexed_blocks, behind its primary key.
pub record BlockRow : Type 0 where
  pub block_hash : BlockHash
  pub parent_hash : BlockHash

-- A row of erc20_transfers; `value` is the text of the NUMERIC.
pub record TransferRow : Type 0 where
  pub transaction_hash : TransactionHash
  pub log_index : ℕ
  pub block_number : ℕ
  pub block_hash : BlockHash
  pub token_address : Address
  pub from_address : Address
  pub to_address : Address
  pub value : String

-- A row of token_metadata, behind its primary key.
pub record MetadataRow : Type 0 where
  pub name : String
  pub symbol : String
  pub decimals : ℕ

pub record Tables : Type 0 where
  pub checkpoints : List (String × BlockCheckpoint)
  pub indexed_blocks : List (ℕ × BlockRow)
  pub erc20_transfers : List TransferRow
  pub token_metadata : List (String × MetadataRow)

-- The committed tables, or within a transaction those that it sees; and the statements so far.
pub record Database : Type 0 where
  pub tables : Tables
  pub statements : ℕ

abbrev pub is_negative : ℕ → Bool
is_negative n = leb (2 ^ 63) n

-- `<` on BIGINT.
abbrev pub signed_lt : ℕ → ℕ → Bool
signed_lt a b = ltb ((a + 2 ^ 63) % 2 ^ 64) ((b + 2 ^ 63) % 2 ^ 64)

abbrev pub counted : Database → Database
counted d = record d { statements = d.statements + 1 }

abbrev pub settle : {A : Type 0} → Database → Result A × Tables → Result A × Database
settle d (r, t) = (r, record { tables = t; statements = d.statements + 1 })

abbrev pub undone : Database → Database → Database
undone before after = record after { tables = before.tables }

module _ (fault : ℕ → GoError) where
  unfoldable pub statement : {A : Type 0} → (Tables → Result A × Tables) → Action Database A
  statement sql d =
      if is_nil (fault d.statements)
      then settle d (sql d.tables)
      else (err (fault d.statements), counted d)

  -- `tx.Commit`, on what the transaction sees.
  abbrev pub commit : String → Database → Database → Result (Unit {0}) × Database
  commit message before after =
      if is_nil (fault after.statements)
      then (ok tt, counted after)
      else (err (wrapped message (fault after.statements)), undone before (counted after))

  -- Behind the body of a transaction: commit, or the deferred rollback.
  abbrev pub finish :
      String → Database → Result (Unit {0}) × Database → Result (Unit {0}) × Database
  finish message before (ok u, after) = commit message before after
  finish message before (err e, after) = (err e, undone before after)

  -- `Begin`, the body, `Commit`, with the rollback deferred behind `Begin`.
  unfoldable pub transaction :
      String → String → Action Database (Unit {0}) → Action Database (Unit {0})
  transaction begin_message commit_message body d =
      if is_nil (fault d.statements)
      then finish commit_message d (body (counted d))
      else (err (wrapped begin_message (fault d.statements)), counted d)
