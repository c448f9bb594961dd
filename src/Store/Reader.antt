-- ===== src/Store/Reader.antt =====
-- internal/store/postgres_transfer_reader.go. LOWER of PostgreSQL and `big.Int.SetString` are
-- parameters, and so is how many rows arrive before a result that breaks off.
pub mod Order
pub mod Rows
pub mod Pages
pub mod Walk
use chain_watch.Prelude.{
  ℕ, zero, suc, ◌+◌, String, Bool, true, false, ◌&&◌, ◌||◌, ◌==◌, nat_eq, string_eq, Option, none,
  some, List, [], ◌∷◌, ◌++◌, ltb, length, take, ℤ, pos, negsuc, if◌then◌else◌,
}
use chain_watch.Errors.{GoError, is_nil, Result, ok, err, text, wrapped, database}
use chain_watch.Effects.{Action, wrapping, classifying, give, pure, ◌>>=◌}
use chain_watch.Domain.{Address, BlockHash, TransactionHash}
use chain_watch.Api.{TransferCursor, TransferQuery}
use chain_watch.Store.{TransferRow, Tables, Database, statement, is_negative, signed_lt}

pub record StoredErc20Transfer : Type 0 where
  pub block_number : ℕ
  pub block_hash : BlockHash
  pub transaction_hash : TransactionHash
  pub log_index : ℕ
  pub token : Address
  pub from : Address
  pub to : Address
  pub value : Option ℤ

pub record TransferPage : Type 0 where
  pub transfers : List StoredErc20Transfer
  pub next_cursor : Option TransferCursor

unfoldable pub clamp_limit : ℤ → ℕ
clamp_limit (negsuc n) = 100
clamp_limit (pos n) = if n == 0 then 100 else if ltb 1000 n then 1000 else n

-- `ORDER BY block_number DESC, log_index DESC`: whether the first row comes before the second.
unfoldable pub precedes : TransferRow → TransferRow → Bool
precedes a b =
    signed_lt b.block_number a.block_number
    || (b.block_number == a.block_number && signed_lt b.log_index a.log_index)

unfoldable pub insert_row : TransferRow → List TransferRow → List TransferRow
insert_row x [] = x ∷ []
insert_row x (y ∷ ys) = if precedes y x then y ∷ insert_row x ys else x ∷ y ∷ ys

unfoldable pub order_rows : List TransferRow → List TransferRow
order_rows [] = []
order_rows (x ∷ xs) = insert_row x (order_rows xs)

-- `WHERE`: the rows that a test keeps.
unfoldable pub where_rows : (TransferRow → Bool) → List TransferRow → List TransferRow
where_rows test [] = []
where_rows test (row ∷ rows) = if test row then row ∷ where_rows test rows else where_rows test rows

-- The condition of a cursor.
unfoldable pub after_cursor : TransferCursor → TransferRow → Bool
after_cursor c row =
    signed_lt row.block_number c.block_number
    || (row.block_number == c.block_number && signed_lt row.log_index c.log_index)

abbrev pub optional : {A : Type 0} → Option A → (A → TransferRow → Bool) → TransferRow → Bool
optional none condition row = true
optional (some a) condition row = condition a row

-- `page.Transfers[len(page.Transfers)-1]`.
unfoldable pub last_transfer : List StoredErc20Transfer → Option StoredErc20Transfer
last_transfer [] = none
last_transfer (t ∷ []) = some t
last_transfer (t ∷ u ∷ ts) = last_transfer (u ∷ ts)

abbrev pub cursor_at : Option StoredErc20Transfer → Option TransferCursor
cursor_at none = none
cursor_at (some t) = some (record { block_number = t.block_number; log_index = t.log_index })

-- The page of the transfers that were read, one more than the limit where there are more.
unfoldable pub page_of : ℕ → List StoredErc20Transfer → TransferPage
page_of limit transfers =
    if ltb limit (length transfers)
    then record {
      transfers = take limit transfers;
      next_cursor = cursor_at (last_transfer (take limit transfers));
    }
    else record { transfers = transfers; next_cursor = none }

module _ (fault : ℕ → GoError) (delivered : ℕ → ℕ) (lower : String → String)
    (parse_value : String → Option ℤ) where
  -- The conditions on block, token and address.
  unfoldable pub selects : TransferQuery → TransferRow → Bool
  selects query row =
      optional query.block_number (λ n r. r.block_number == n) row
      && optional query.token (λ token r. lower r.token_address == lower token) row
      && optional query.address
          (λ a r. lower r.from_address == lower a || lower r.to_address == lower a) row

  -- All of them, with the cursor's.
  unfoldable pub matches : TransferQuery → TransferRow → Bool
  matches query row = selects query row && optional query.cursor after_cursor row

  unfoldable pub select_rows : TransferQuery → ℕ → List TransferRow → List TransferRow
  select_rows query query_limit rows =
      take query_limit (order_rows (where_rows (matches query) rows))

  unfoldable pub stored : TransferRow → StoredErc20Transfer
  stored row = record {
    block_number = row.block_number;
    block_hash = row.block_hash;
    transaction_hash = row.transaction_hash;
    log_index = row.log_index;
    token = row.token_address;
    from = row.from_address;
    to = row.to_address;
    value = parse_value row.value;
  }

  abbrev pub with_value : TransferRow → Option ℤ → Result StoredErc20Transfer
  with_value row none = err (text "invalid transfer value %q")
  with_value row (some v) = ok (stored row)

  -- A round of the loop over the rows.
  unfoldable pub scan_transfer : TransferRow → Result StoredErc20Transfer
  scan_transfer row =
      if is_negative row.block_number
      then err (text "invalid negative block number: %d")
      else if is_negative row.log_index
      then err (text "invalid negative log index: %d")
      else with_value row (parse_value row.value)

  abbrev pub add_scanned :
      Result StoredErc20Transfer
      → Result (List StoredErc20Transfer)
      → Result (List StoredErc20Transfer)
  add_scanned (err e) rest = err e
  add_scanned (ok t) (err e) = err e
  add_scanned (ok t) (ok ts) = ok (t ∷ ts)

  unfoldable pub scan_rows : List TransferRow → Result (List StoredErc20Transfer)
  scan_rows [] = ok []
  scan_rows (row ∷ rows) = add_scanned (scan_transfer row) (scan_rows rows)

  -- `rows.Err()` behind the loop over the rows that arrived.
  unfoldable pub read_rows : List TransferRow → Action Database (List StoredErc20Transfer)
  read_rows rows d =
      if is_nil (fault d.statements)
      then (scan_rows rows, record d { statements = d.statements + 1 })
      else (
        elim (scan_rows (take (delivered d.statements) rows)) [
          | err e ↦ err e
          | ok ts ↦ err (wrapped "failed while reading transfers" (fault d.statements))
        ],
        record d { statements = d.statements + 1 },
      )

  unfoldable pub list_transfers : TransferQuery → Action Database TransferPage
  list_transfers query =
      let limit = clamp_limit (pos query.limit) in
      classifying database "list transfers" (do
        rows ←
            wrapping "failed to query transfers"
              (statement fault (λ t. (ok (select_rows query (limit + 1) t.erc20_transfers), t)))
        transfers ← read_rows rows
        pure (page_of limit transfers))
