-- ===== src/Ethereum/Stack/Indexing.antt =====
-- Indexing a range through the client of the application.
use chain_watch.Prelude.{ℕ, ◌-◌, ◌^◌, ◌≤◌, ◌<◌, ◌≡◌, Option, some, List}
use chain_watch.Errors.{ok}
use chain_watch.Effects.Ends.{Ends}
use chain_watch.Domain.{BlockTransferIndex, BlockCheckpoint}
use chain_watch.Domain.Transfers.{GoEthereum}
use chain_watch.Rpc.{RpcContext, RpcCounters, RetryPolicy}
use chain_watch.Rpc.Client.{resilient_client, block_client, beside, beside_persistence}
use chain_watch.Rpc.Client.Answers.{resilient_client-AnswersNumbers}
use chain_watch.Rpc.Client.Committing.{QuietContext, resilient_commits}
use chain_watch.Indexer.{TransferBlockClient, BlockPersistence, Start, resume}
use chain_watch.Indexer.History.{count_up, Whole, Stopped}
use chain_watch.Indexer.Sequential.{index_range}
use chain_watch.Indexer.Sequential.Commits.{index_range-Ends}
use chain_watch.Ethereum.{EthereumNode, Abi}
use chain_watch.Indexer.History.{KeepsHistory}
use chain_watch.Ethereum.Stack.{ethereum_backend, AnswersAsked, QuietNode}
use chain_watch.Ethereum.Stack.Interfaces.{ethereum_backend-AnswersNumbers, ethereum_commits}

module _ (lib : GoEthereum) (abi : Abi) {W : Type 0} (node : EthereumNode W)
    (context : RpcContext W) (policy : RetryPolicy) where
  -- What the indexers are given.
  unfoldable pub application_client : TransferBlockClient (RpcCounters × W)
  application_client =
      block_client (resilient_client context policy (ethereum_backend lib abi node))

  -- The sequential IndexRange over the resilient Ethereum client, whatever the retries. The node answers
  -- a request for a number with the block of that number, neither the node nor waiting commits
  -- anything, a save that succeeds appends its block to what is committed and one that fails appends
  -- nothing. Then a run that succeeds has committed exactly the blocks of the numbers that were left, in
  -- order, each with the one before as its parent where both hashes are known; one that fails has
  -- committed those of a proper prefix. The range ends below 2^64, and something of it is left to index
  -- behind the checkpoint.
  pub index_range-application_client-Ends :
      (history : W → List BlockTransferIndex) (persistence : BlockPersistence W)
      → AnswersAsked node
      → QuietNode node history
      → QuietContext history context
      → KeepsHistory history persistence
      → (start end : ℕ) (m : RpcCounters) (w : W) (found : Option BlockCheckpoint) (s : Start)
      → start ≤ end
      → end < 2 ^ 64
      → (persistence.load w).0 ≡ ok found
      → resume found start end ≡ some s
      → Ends
          (λ blocks after.
            Whole
              (count_up s.next_block (end - s.next_block))
              s.expected_parent_hash
              (history w)
              blocks
              (history after.1))
          (λ after.
            Stopped
              (count_up s.next_block (end - s.next_block))
              s.expected_parent_hash
              (history w)
              (history after.1))
          (index_range application_client (beside_persistence persistence) start end (m, w))
  unfolding application_client beside_persistence beside ethereum_commits resilient_commits
  index_range-application_client-Ends history persistence asked quiet_node quiet store start end m w
        found s =
      index_range-Ends
        (resilient_commits context policy (ethereum_backend lib abi node) persistence
          (ethereum_commits lib abi node history persistence quiet_node store) quiet)
        (resilient_client-AnswersNumbers context policy (ethereum_backend lib abi node)
          (ethereum_backend-AnswersNumbers lib abi node asked))
        start end (m, w) found s
