-- ===== src/Rpc/Client.antt =====
-- The client of internal/ethereum/rpc_resilience.go: each of its methods is a resilient call of the same
-- method of the client behind it. Its world holds the counters too.
pub mod Answers
pub mod Committing
use chain_watch.Prelude.{ℕ}
use chain_watch.Effects.{Action}
use chain_watch.Domain.{Address, BlockTransferIndex, ObservedBlock}
use chain_watch.Metadata.{TokenMetadata}
use chain_watch.Rpc.{RpcContext, RpcCounters, RetryPolicy, execute_resilient_rpc}
use chain_watch.Indexer.{TransferBlockClient, BlockPersistence}

-- `resilientEthereumBackend`.
pub record EthereumBackend (W : Type 0) : Type 0 where
  pub get_latest_observed_block : Action W ObservedBlock
  pub get_observed_block_by_number : ℕ → Action W ObservedBlock
  pub get_erc20_transfers_by_block : ObservedBlock → Action W BlockTransferIndex
  pub fetch_token_metadata : Address → Action W TokenMetadata

module _ {W : Type 0} (context : RpcContext W) (policy : RetryPolicy) where
  unfoldable pub resilient : {A : Type 0} → Action W A → Action (RpcCounters × W) A
  resilient call (m, w) =
      let (r, counters, after) = execute_resilient_rpc context policy call m w in
      (r, (counters, after))

  unfoldable pub resilient_client : EthereumBackend W → EthereumBackend (RpcCounters × W)
  resilient_client next = record {
    get_latest_observed_block = resilient next.get_latest_observed_block;
    get_observed_block_by_number = λ number. resilient (next.get_observed_block_by_number number);
    get_erc20_transfers_by_block = λ block. resilient (next.get_erc20_transfers_by_block block);
    fetch_token_metadata = λ address. resilient (next.fetch_token_metadata address);
  }

-- The part of a client that an indexer takes.
unfoldable pub block_client : {W : Type 0} → EthereumBackend W → TransferBlockClient W
block_client backend = record {
  get_observed_block_by_number = backend.get_observed_block_by_number;
  get_erc20_transfers_by_block = backend.get_erc20_transfers_by_block;
}

-- A call that is not one of the node, in the world of the resilient client.
unfoldable pub beside : {W A : Type 0} → Action W A → Action (RpcCounters × W) A
beside call (m, w) = let (r, after) = call w in (r, (m, after))

unfoldable pub beside_persistence :
    {W : Type 0} → BlockPersistence W → BlockPersistence (RpcCounters × W)
beside_persistence persistence = record {
  load = beside persistence.load;
  save_indexed_block = λ index. beside (persistence.save_indexed_block index);
}
