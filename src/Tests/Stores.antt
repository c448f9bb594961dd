-- ===== src/Tests/Stores.antt =====
-- The PostgreSQL stores and the retrying service on concrete tables.
use chain_watch.Prelude.{
  lookup, insert, ℕ, ◌≡◌, refl, String, false, Option, none, some, [], ◌∷◌, map, ℤ, pos, arith,
  string_eq, nat_eq, ◌==◌, ◌+◌, if◌then◌else◌,
}
use chain_watch.Errors.{GoError, nil, ok, err, eof, sentinel, is, no_rows}
use chain_watch.Effects.{◌>>=◌}
use chain_watch.Effects.Ends.{Ends}
use chain_watch.Domain.{Erc20Transfer, BlockTransferIndex, BlockCheckpoint}
use chain_watch.Api.{TransferQuery}
use chain_watch.Metadata.{TokenMetadata}
use chain_watch.Blockchain.{Transaction, Blockchain}
use chain_watch.Blockchain.Balances.{total}
use chain_watch.Indexer.Reorg.Laws.{Stores}
use chain_watch.Service.{ServiceClient, default_settings, sync_latest_block}
use chain_watch.Service.Sync.{Synced, sync_latest_block-Synced}
use chain_watch.Store.{TransferRow, Tables, Database, statement, transaction}
use chain_watch.Store.Checkpoint.{upsert_checkpoint}
use chain_watch.Store.Transfers.{
  insert_block_transfers, insert_transfers, insert_transfer, insert_transfer_row, transfer_row,
  fits_integer, fits_numeric, has_key,
}
use chain_watch.Store.Blocks.{
  save_statements, record_indexed_block, upsert_block_row, PostgresBlockPersistence,
  save_indexed_block, rollback_to,
}
use chain_watch.Store.Blocks.Saves.{Saved, save_indexed_block-Ends}
use chain_watch.Store.Blocks.Laws.{Rolled, rollback_to-Ends}
use chain_watch.Store.Blocks.Stores.{postgres_view, valid_store, postgres-Stores}
use chain_watch.Store.Reader.{order_rows, where_rows, selects, insert_row, precedes}
use chain_watch.Store.Reader.Pages.{to_stored}
use chain_watch.Store.Reader.Walk.{all_pages, selected, all_pages_complete}
use chain_watch.Store.Tokens.{load_token_metadata, save_token_metadata, upsert_metadata}
use chain_watch.Store.Tokens.RoundTrip.{load-save_token_metadata}

abbrev working : ℕ → GoError
working k = nil

abbrev value_text : ℤ → String
value_text v = "7"

abbrev parse_value : String → Option ℤ
parse_value s = some (pos 7)

abbrev same_text : String → String
same_text s = s

abbrev persistence : PostgresBlockPersistence
persistence = record { checkpoint_name = "main"; before_checkpoint = none }

abbrev row : ℕ → ℕ → TransferRow
row block log = record {
  transaction_hash = "t";
  log_index = log;
  block_number = block;
  block_hash = "b";
  token_address = "token";
  from_address = "ann";
  to_address = "bob";
  value = "7";
}

abbrev tables : Tables
tables = record {
  checkpoints = ("main", record { number = 5; hash = "b5" }) ∷ [];
  indexed_blocks = (5, record { block_hash = "b5"; parent_hash = "b4" }) ∷ [];
  erc20_transfers = row 4 0 ∷ row 5 1 ∷ row 5 0 ∷ [];
  token_metadata = [];
}

abbrev database : Database
database = record { tables = tables; statements = 0 }

abbrev payment : Erc20Transfer
payment = record {
  token = "token";
  from = "ann";
  to = "bob";
  value = some (pos 7);
  transaction_hash = "t6";
  log_index = 0;
}

abbrev block_six : BlockTransferIndex
block_six = record {
  block_number = 6;
  block_hash = "b6";
  parent_hash = "b5";
  transfers = payment ∷ [];
}

-- A block behind the checkpoint is saved.
block_saved : (save_indexed_block working value_text persistence block_six database).0 ≡ ok tt
unfolding save_indexed_block save_statements insert_block_transfers insert_transfers insert_transfer
    insert_transfer_row transfer_row fits_integer fits_numeric has_key record_indexed_block
    upsert_block_row upsert_checkpoint transaction statement lookup insert ◌>>=◌
block_saved = refl

save_indexed_block-Ends_example :
    Ends
      (λ u after. Saved value_text "main" block_six tables after.tables)
      (λ after. after.tables ≡ tables)
      (save_indexed_block working value_text persistence block_six database)
save_indexed_block-Ends_example =
    save_indexed_block-Ends working value_text persistence block_six database

abbrev block_four : BlockCheckpoint
block_four = record { number = 4; hash = "b4" }

rollback_to-Ends_example :
    Ends
      (λ u after. Rolled "main" block_four tables after.tables)
      (λ after. after.tables ≡ tables)
      (rollback_to working value_text persistence block_four database)
rollback_to-Ends_example = rollback_to-Ends working value_text persistence block_four database

honest : (k : ℕ) → is (working k) no_rows ≡ false
unfolding is
honest k = refl

postgres-Stores_example :
    Stores
      (postgres_view working honest value_text persistence)
      (valid_store working honest value_text persistence)
postgres-Stores_example = postgres-Stores working honest value_text persistence

abbrev query : TransferQuery
query = record {
  block_number = none;
  token = some "token";
  address = none;
  limit = 1;
  cursor = none;
}

-- Three pages of one transfer each.
all_pages_complete_example :
    (all_pages working (λ n. n) same_text parse_value 4 query database).0
    ≡ ok (
        map
          (to_stored working (λ n. n) same_text parse_value)
          (selected working (λ n. n) same_text parse_value query tables.erc20_transfers))
unfolding selected order_rows where_rows selects insert_row precedes
all_pages_complete_example =
    all_pages_complete working (λ n. n) same_text parse_value (λ k. refl) 4 query database
      (
        ((omega arith, omega arith), pos 7, refl),
        (
          ((omega arith, omega arith), pos 7, refl),
          (((omega arith, omega arith), pos 7, refl), tt),
        ),
      )
      ((refl, (refl, tt)), ((refl, tt), (tt, tt))) (omega arith)

abbrev token : TokenMetadata
token = record { address = "0xA"; name = "Token"; symbol = "TKN"; decimals = 18 }

load-save_token_metadata_example :
    (load_token_metadata working same_text "0xA"
      (save_token_metadata working same_text token database).1).0
    ≡ ok (some token)
unfolding save_token_metadata upsert_metadata statement ◌>>=◌
load-save_token_metadata_example =
    load-save_token_metadata working same_text token "0xA" database refl refl refl

abbrev ledger : Blockchain
ledger = record { blocks = []; balances = ("ann", 10) ∷ []; processed_transactions = [] }

abbrev payment_of_ann : Transaction
payment_of_ann = record { hash = "t1"; from = "ann"; to = "bob"; value_wei = 4; gas_used = 21000 }

-- A client that fails once.
abbrev flaky : ServiceClient ℕ
flaky = record {
  get_latest_block = λ calls. (
    if calls == 0
        then err (sentinel eof)
        else ok
            (record { number = 1; hash = "b"; transactions = payment_of_ann ∷ []; timestamp = 0 }),
    calls + 1,
  );
  wait = λ delay calls. (nil, calls);
}

sync_latest_block-Synced_example :
    Synced flaky 0 ledger (sync_latest_block flaky default_settings 0 ledger)
unfolding total
sync_latest_block-Synced_example =
    sync_latest_block-Synced flaky default_settings 0 ledger (omega arith) (omega arith)
