-- ===== src/Blockchain.antt =====
-- internal/domain/blockchain.go: the ledger of balances.
pub mod Balances
pub mod Ledger
use chain_watch.Prelude.{
  ℕ, ◌+◌, ◌-◌, String, Bool, true, false, Option, none, some, List, [], ◌∷◌, ◌++◌, ◌==◌, nat_eq,
  string_eq, ltb, length, lookup, insert, if◌then◌else◌,
}
use chain_watch.Errors.{
  GoError, nil, sentinel, Result, ok, err, is_nil, transaction_already_processed, sender_not_found,
  insufficient_balance, empty_transaction_hash, empty_sender, empty_receiver, zero_value,
}
use chain_watch.Effects.{Action, pure, wrapping, ◌>>=◌, ◌>>◌}
use chain_watch.Domain.{Address, TransactionHash, BlockHash, u64}

pub record Transaction : Type 0 where
  pub hash : TransactionHash
  pub from : Address
  pub to : Address
  pub value_wei : ℕ
  pub gas_used : ℕ

pub record Block : Type 0 where
  pub number : ℕ
  pub hash : BlockHash
  pub transactions : List Transaction
  pub timestamp : ℕ

pub record Blockchain : Type 0 where
  pub blocks : List Block
  pub balances : List (Address × ℕ)
  pub processed_transactions : List (TransactionHash × Bool)

-- Go maps are copied where they are handed over; these are values.
unfoldable pub new_blockchain : List (Address × ℕ) → Blockchain
new_blockchain initial_balances = record {
  blocks = [];
  balances = initial_balances;
  processed_transactions = [];
}

unfoldable pub validate : Transaction → GoError
validate tx =
    if tx.hash == ""
    then sentinel empty_transaction_hash
    else if tx.from == ""
    then sentinel empty_sender
    else if tx.to == ""
    then sentinel empty_receiver
    else if tx.value_wei == 0
    then sentinel zero_value
    else nil

-- A missing key of a Go map reads as the zero value.
abbrev pub or_zero : Option ℕ → ℕ
or_zero none = 0
or_zero (some n) = n

abbrev pub or_false : Option Bool → Bool
or_false none = false
or_false (some b) = b

unfoldable pub balance_of : Address → List (Address × ℕ) → ℕ
balance_of address balances = or_zero (lookup address balances)

unfoldable pub is_transaction_processed : TransactionHash → Blockchain → Bool
is_transaction_processed hash bc = or_false (lookup hash bc.processed_transactions)

unfoldable pub block_count : Blockchain → ℕ
block_count bc = length bc.blocks

unfoldable pub last : List Block → Option Block
last [] = none
last (b ∷ []) = some b
last (b ∷ c ∷ bs) = last (c ∷ bs)

unfoldable pub latest_block : Blockchain → Option Block
latest_block bc = last bc.blocks

-- The two `-=` and `+=`; the first does not wrap, since the balance was compared with the value.
unfoldable pub transfer : Transaction → ℕ → List (Address × ℕ) → List (Address × ℕ)
transfer tx sender_balance balances =
    let debited = insert tx.from (sender_balance - tx.value_wei) balances in
    insert tx.to (u64 (balance_of tx.to debited + tx.value_wei)) debited

unfoldable pub apply_transaction : Transaction → Option ℕ → Action Blockchain (Unit {0})
apply_transaction tx none bc = (err (sentinel sender_not_found), bc)
apply_transaction tx (some sender_balance) bc =
    if ltb sender_balance tx.value_wei then (err (sentinel insufficient_balance), bc) else (
      ok tt,
      record bc {
        balances = transfer tx sender_balance bc.balances;
        processed_transactions = insert tx.hash true bc.processed_transactions;
      },
    )

unfoldable pub process_transaction : Transaction → Action Blockchain (Unit {0})
process_transaction tx bc =
    if is_nil (validate tx)
    then if is_transaction_processed tx.hash bc
      then (err (sentinel transaction_already_processed), bc)
      else apply_transaction tx (lookup tx.from bc.balances) bc
    else (err (validate tx), bc)

-- The loop over the transactions of a block.
unfoldable pub process_all : List Transaction → Action Blockchain (Unit {0})
process_all [] = pure tt
process_all (tx ∷ txs) =
    wrapping "failed to process transaction %s" (process_transaction tx) >>= λ _. process_all txs

abbrev pub temp_blockchain : Blockchain → Blockchain
temp_blockchain bc = record bc { blocks = [] }

unfoldable pub adopt :
    Block → Blockchain → Result (Unit {0}) × Blockchain → Result (Unit {0}) × Blockchain
adopt block bc (err e, temp) = (err e, bc)
adopt block bc (ok u, temp) = (ok tt, record temp { blocks = bc.blocks ++ block ∷ [] })

unfoldable pub process_block : Block → Action Blockchain (Unit {0})
process_block block bc = adopt block bc (process_all block.transactions (temp_blockchain bc))
