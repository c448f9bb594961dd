-- ===== src/Ethereum/Stack.antt =====
-- The client that the application gives to its indexers: retries in front of the Ethereum client in
-- front of a node.
pub mod Interfaces
pub mod Indexing
use chain_watch.Prelude.{ℕ, ◌+◌, ◌≡◌, ◌∙◌, refl, sym, ap, Option, some, List, [], ◌∷◌, ◌++◌}
use chain_watch.Errors.{GoError, Result, ok, err, rpc}
use chain_watch.Domain.{Erc20Transfer, BlockTransferIndex, ObservedBlock}
use chain_watch.Domain.Transfers.{Bytes, GoEthereum}
use chain_watch.Rpc.{RpcContext, RpcCounters, RetryPolicy}
use chain_watch.Rpc.Client.{EthereumBackend, resilient_client, block_client}
use chain_watch.Rpc.Client.Answers.{resilient_client-AnswersNumbers}
use chain_watch.Indexer.{BlockPersistence}
use chain_watch.Ethereum.{EthereumTransaction, EthereumBlock, FilterQuery, EthereumNode, Abi}
use chain_watch.Ethereum.Client.{
  indexed, decode_logs, observe_transactions, observed_block, transfer_query,
  get_latest_observed_block, get_observed_block_by_number, get_erc20_transfers_by_block,
}
use chain_watch.Ethereum.Client.Answers.{
  Answered, answered_block, answered_no_sender, answered_no_block, get_observed_block-Answered,
}
use chain_watch.Effects.Keeping.{
  Keeps, pure-Keeps, give-Keeps, wrapping-Keeps, classifying-Keeps, bind-Keeps,
}
use chain_watch.Effects.Ends.{Ends-bind, Ends-classifying, Ends-give}
use chain_watch.Ethereum.Tokens.{fetch_token_metadata}

module _ (lib : GoEthereum) (abi : Abi) {W : Type 0} (node : EthereumNode W) where
  -- The client as the backend of the resilient client.
  unfoldable pub ethereum_backend : EthereumBackend W
  ethereum_backend = record {
    get_latest_observed_block = get_latest_observed_block lib node;
    get_observed_block_by_number = get_observed_block_by_number lib node;
    get_erc20_transfers_by_block = get_erc20_transfers_by_block lib node;
    fetch_token_metadata = fetch_token_metadata lib abi node;
  }

module _ {W : Type 0} (node : EthereumNode W) where
  -- eth_getBlockByNumber answers with the block that was asked for.
  pub record AnswersAsked : Type 0 where
    pub asked_number :
        (n : ℕ) (w : W) (block : EthereumBlock)
        → (node.block_by_number (some n) w).0 ≡ ok block
        → block.number_u64 ≡ n

  -- No call of the node moves the view.
  pub record QuietNode {V : Type 0} (view : W → V) : Type 0 where
    pub block_keeps : (number : Option ℕ) → Keeps view (node.block_by_number number)
    pub logs_keep : (query : FilterQuery) → Keeps view (node.filter_logs query)
    pub sender_keeps :
        (tx : EthereumTransaction) (hash : Bytes) (index : ℕ)
        → Keeps view (node.transaction_sender tx hash index)
