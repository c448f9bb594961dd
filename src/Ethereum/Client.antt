-- ===== src/Ethereum/Client.antt =====
-- internal/ethereum/ethereum_client.go: blocks, receipts and transfers as the program sees them.
pub mod Logs
pub mod Fetching
pub mod RoundTrip
pub mod Blocks
pub mod Answers
use chain_watch.Prelude.{
  ℕ, zero, suc, ◌+◌, Bool, true, false, Option, none, some, List, [], ◌∷◌, ◌==◌, ℤ, replicate,
  if◌then◌else◌, map,
}
use chain_watch.Errors.{GoError, Result, ok, err, rpc, wrapped, new_domain_error}
use chain_watch.Effects.{Action, pure, give, wrapping, classifying, ◌>>=◌}
use chain_watch.Domain.{
  Address, TransactionHash, Erc20Transfer, BlockTransferIndex, ObservedTransaction, ObservedBlock,
  u64,
}
use chain_watch.Domain.Transfers.{
  Bytes, bytes_eq, GoEthereum, ObservedLog, ObservedReceipt, erc20_transfer_topic,
  is_erc20_transfer_log, decode_erc20_transfer,
}
use chain_watch.Blockchain.{Block}
use chain_watch.Indexer.{TransferBlockClient}
use chain_watch.Ethereum.{
  Header, EthereumTransaction, EthereumBlock, Log, Receipt, FilterQuery, EthereumNode,
}

-- NewEthereumClient, behind the answer of DialContext.
abbrev pub new_ethereum_client : {A : Type 0} → Result A → Result A
new_ethereum_client (err e) = err (new_domain_error rpc "connect to Ethereum RPC" e)
new_ethereum_client (ok client) = ok client

abbrev pub appended :
    Result Erc20Transfer → Result (List Erc20Transfer) → Result (List Erc20Transfer)
appended (err e) rest = err (wrapped "failed to decode ERC20 transfer log %d" e)
appended (ok transfer) (err e) = err e
appended (ok transfer) (ok transfers) = ok (transfer ∷ transfers)

abbrev pub indexed : ObservedBlock → Result (List Erc20Transfer) → Result BlockTransferIndex
indexed block (err e) = err e
indexed block (ok transfers) = ok (record {
  block_number = block.number;
  block_hash = block.hash;
  parent_hash = block.parent_hash;
  transfers = transfers;
})

module _ (lib : GoEthereum) where
  unfoldable pub observed_log : Log → ObservedLog
  observed_log log = record {
    address = lib.address_hex log.address;
    topics = map lib.hash_hex log.topics;
    payload = log.payload;
    index = log.index;
    transaction_hash = lib.hash_hex log.tx_hash;
    block_number = log.block_number;
    removed = log.removed;
  }

  abbrev pub contract_address_of : Bytes → Option Address
  contract_address_of address =
      if address == replicate 20 0 then none else some (lib.address_hex address)

  unfoldable pub observed_receipt : Receipt → ObservedReceipt
  observed_receipt receipt = record {
    transaction_hash = lib.hash_hex receipt.tx_hash;
    status = receipt.status;
    gas_used = receipt.gas_used;
    effective_gas_price = receipt.effective_gas_price;
    contract_address = contract_address_of receipt.contract_address;
    logs = map observed_log receipt.logs;
  }

  -- The loop over the logs: the first log that does not decode ends it.
  unfoldable pub decode_logs : List Log → Result (List Erc20Transfer)
  decode_logs [] = ok []
  decode_logs (l ∷ ls) =
      let rest = decode_logs ls in
      let log = observed_log l in
      if is_erc20_transfer_log lib log
      then appended (decode_erc20_transfer lib log log.transaction_hash) rest
      else rest

  abbrev pub address_of : Option Bytes → Option Address
  address_of none = none
  address_of (some a) = some (lib.address_hex a)

  unfoldable pub observed_transaction : EthereumTransaction → Bytes → ObservedTransaction
  observed_transaction tx sender = record {
    hash = lib.hash_hex tx.hash;
    from = lib.address_hex sender;
    to = address_of tx.to;
    value_wei = tx.value;
    nonce = tx.nonce;
    gas_limit = tx.gas;
    kind = tx.kind;
  }

  unfoldable pub transfer_query : ObservedBlock → FilterQuery
  transfer_query block = record {
    block_hash = lib.hex_to_hash block.hash;
    topics = (erc20_transfer_topic lib ∷ []) ∷ [];
  }

  module _ {W : Type 0} (node : EthereumNode W) where
    unfoldable pub get_latest_block : Action W Block
    get_latest_block = classifying rpc "fetch latest Ethereum block" (do
      header ← wrapping "failed to fetch latest ethereum header" (node.header_by_number none)
      pure (record {
        number = u64 header.number;
        hash = lib.hash_hex header.hash;
        transactions = [];
        timestamp = header.time;
      }))

    -- The loop over the transactions, `index` being the next one's.
    unfoldable pub observe_transactions :
        Bytes → ℕ → List EthereumTransaction → Action W (List ObservedTransaction)
    observe_transactions hash index [] = pure []
    observe_transactions hash index (tx ∷ txs) = do
      sender ←
          wrapping "failed to recover sender for transaction %s"
            (node.transaction_sender tx hash index)
      rest ← observe_transactions hash (index + 1) txs
      pure (observed_transaction tx sender ∷ rest)

    unfoldable pub observed_block : EthereumBlock → Action W ObservedBlock
    observed_block block = do
      transactions ← observe_transactions block.hash 0 block.transactions
      pure (record {
        number = block.number_u64;
        hash = lib.hash_hex block.hash;
        parent_hash = lib.hash_hex block.parent_hash;
        timestamp = block.time;
        transactions = transactions;
      })

    unfoldable pub get_latest_observed_block : Action W ObservedBlock
    get_latest_observed_block = classifying rpc "fetch latest observed Ethereum block" (do
      block ← wrapping "failed to fetch latest ethereum block" (node.block_by_number none)
      observed_block block)

    unfoldable pub get_observed_block_by_number : ℕ → Action W ObservedBlock
    get_observed_block_by_number number = classifying rpc "fetch Ethereum block by number" (do
      block ← wrapping "failed to fetch ethereum block %d" (node.block_by_number (some number))
      observed_block block)

    unfoldable pub get_transaction_receipt : TransactionHash → Action W ObservedReceipt
    get_transaction_receipt hash = classifying rpc "fetch Ethereum transaction receipt" (do
      receipt ←
          wrapping "failed to fetch receipt for transaction %s"
            (node.transaction_receipt (lib.hex_to_hash hash))
      pure (observed_receipt receipt))

    unfoldable pub get_erc20_transfers_by_block : ObservedBlock → Action W BlockTransferIndex
    get_erc20_transfers_by_block block = classifying rpc "fetch ERC20 transfer logs" (do
      logs ←
          wrapping "failed to fetch ERC20 transfer logs for block %s"
            (node.filter_logs (transfer_query block))
      give (indexed block (decode_logs logs)))
