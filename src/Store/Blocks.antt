-- ===== src/Store/Blocks.antt =====
-- internal/store/postgres_block_persistence.go.
pub mod Laws
pub mod Rows
pub mod Records
pub mod Saves
pub mod Stores
use chain_watch.Prelude.{
  ℕ, ◌+◌, ◌^◌, ◌==◌, string_eq, nat_eq, String, Bool, true, false, Option, none, some, List, [],
  ◌∷◌, lookup, insert, delete_where, ℤ, leb, if◌then◌else◌,
}
use chain_watch.Errors.{
  GoError, Result, ok, err, text, wrapped, sentinel, no_rows, chain_reorg, is, is_nil, database,
  new_domain_error,
}
use chain_watch.Effects.{Action, pure, fail, give, wrapping, classifying, ◌>>=◌, ◌>>◌}
use chain_watch.Domain.{BlockHash, BlockCheckpoint, BlockTransferIndex}
use chain_watch.Indexer.{BlockPersistence}
use chain_watch.Indexer.Reorg.{ReorgPersistence}
use chain_watch.Store.{
  BlockRow, TransferRow, Tables, Database, statement, transaction, is_negative, signed_lt,
}
use chain_watch.Store.Checkpoint.{scan_row, reading, load, upsert_checkpoint}
use chain_watch.Store.Transfers.{insert_block_transfers}

-- The row behind `ON CONFLICT (block_number) DO UPDATE ... WHERE ... RETURNING block_hash`: a row with
-- another hash is left alone, and then no row is returned.
abbrev pub upserted : ℕ → BlockRow → Option BlockRow → Tables → Result BlockHash × Tables
upserted number row none t =
    (ok row.block_hash, record t { indexed_blocks = insert number row t.indexed_blocks })
upserted number row (some stored) t =
    if stored.block_hash == row.block_hash
    then (
      ok stored.block_hash,
      record t {
        indexed_blocks =
            insert number
              (record stored {
                parent_hash =
                    if stored.parent_hash == "" then row.parent_hash else stored.parent_hash;
              })
              t.indexed_blocks;
      },
    )
    else (err (sentinel no_rows), t)

-- With CHECK (block_number >= 0).
unfoldable pub upsert_block_row : ℕ → BlockRow → Tables → Result BlockHash × Tables
upsert_block_row number row t =
    if is_negative number
    then (err (text "violates check constraint"), t)
    else upserted number row (lookup number t.indexed_blocks) t

-- What recordIndexedBlock makes of the answer.
abbrev pub recorded : Result BlockHash → Result (Unit {0})
recorded (ok hash) = ok tt
recorded (err e) =
    if is e no_rows
    then err (
        new_domain_error chain_reorg "record indexed block %d"
          (text "stored block hash conflicts with canonical block hash"))
    else err e

-- Behind the query of LoadIndexedBlockHash.
abbrev pub found_hash : Result BlockRow → Result (Option BlockHash)
found_hash (ok row) = ok (some row.block_hash)
found_hash (err e) = if is e no_rows then ok none else err e

-- `DELETE FROM erc20_transfers WHERE block_number > $1`: the rows that are left.
unfoldable pub transfers_up_to : ℕ → List TransferRow → List TransferRow
transfers_up_to n [] = []
transfers_up_to n (row ∷ rows) =
    if signed_lt n row.block_number then transfers_up_to n rows else row ∷ transfers_up_to n rows

-- A persistence object: the name of its checkpoint, and what the hook returns that it calls before it
-- updates the checkpoint (NewPostgresBlockPersistence sets no hook).
pub record PostgresBlockPersistence : Type 0 where
  pub checkpoint_name : String
  pub before_checkpoint : Option GoError

abbrev pub hook : Option GoError → Result (Unit {0})
hook none = ok tt
hook (some e) = if is_nil e then ok tt else err (wrapped "before checkpoint update" e)

module _ (fault : ℕ → GoError) (value_text : ℤ → String) (s : PostgresBlockPersistence) where
  unfoldable pub record_indexed_block : ℕ → BlockHash → BlockHash → Action Database (Unit {0})
  record_indexed_block number hash parent d = reading recorded (
      statement fault (upsert_block_row number (record { block_hash = hash; parent_hash = parent }))
        d)

  -- The statements of SaveIndexedBlock between `Begin` and `Commit`.
  unfoldable pub save_statements : BlockTransferIndex → Action Database (Unit {0})
  save_statements index = do
    insert_block_transfers fault value_text index
    record_indexed_block index.block_number index.block_hash index.parent_hash
    give (hook s.before_checkpoint)
    upsert_checkpoint fault s.checkpoint_name
        (record { number = index.block_number; hash = index.block_hash })

  unfoldable pub save_indexed_block : BlockTransferIndex → Action Database (Unit {0})
  save_indexed_block index = classifying database "atomically persist indexed block" (
      transaction fault "begin indexed block transaction" "commit indexed block transaction"
        (save_statements index))

  unfoldable pub ensure_indexed_block : BlockCheckpoint → Action Database (Unit {0})
  ensure_indexed_block checkpoint =
      classifying database "record checkpoint block history"
        (record_indexed_block checkpoint.number checkpoint.hash "")

  unfoldable pub load_indexed_block_hash : ℕ → Action Database (Option BlockHash)
  load_indexed_block_hash number =
      classifying database "load indexed block hash" λ d.
        reading found_hash (statement fault (λ t. scan_row (lookup number t.indexed_blocks) t) d)

  -- The statements of RollbackTo between `Begin` and `Commit`.
  unfoldable pub rollback_statements : BlockCheckpoint → Action Database (Unit {0})
  rollback_statements checkpoint = do
    wrapping "delete orphaned transfers" (
        statement fault λ t. (
          ok tt,
          record t { erc20_transfers = transfers_up_to checkpoint.number t.erc20_transfers },
        ))
    wrapping "delete orphaned block history" (
        statement fault λ t. (
          ok tt,
          record t {
            indexed_blocks = delete_where (λ n. signed_lt checkpoint.number n) t.indexed_blocks;
          },
        ))
    wrapping "move checkpoint to common ancestor"
        (upsert_checkpoint fault s.checkpoint_name checkpoint)

  unfoldable pub rollback_to : BlockCheckpoint → Action Database (Unit {0})
  rollback_to checkpoint = classifying database "roll back orphaned indexed blocks" (
      transaction fault "begin reorg rollback transaction" "commit reorg rollback"
        (rollback_statements checkpoint))

  abbrev pub postgres_persistence : BlockPersistence Database
  postgres_persistence = record {
    load = load fault s.checkpoint_name;
    save_indexed_block = save_indexed_block;
  }

  abbrev pub postgres_store : ReorgPersistence Database
  postgres_store = record {
    block_persistence = postgres_persistence;
    ensure_indexed_block = ensure_indexed_block;
    load_indexed_block_hash = load_indexed_block_hash;
    rollback_to = rollback_to;
  }
