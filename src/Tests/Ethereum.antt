-- ===== src/Tests/Ethereum.antt =====
-- The Ethereum client at a small node.
use chain_watch.Prelude.{true, ◌≡◌, refl, none, some, [], pos, replicate, arith}
use chain_watch.Errors.{ok}
use chain_watch.Effects.Ends.{Ends}
use chain_watch.Domain.{ObservedBlock}
use chain_watch.Domain.Transfers.{decode_erc20_transfer, successful, log_count, fee_wei}
use chain_watch.Ethereum.{Receipt}
use chain_watch.Indexer.{resume}
use chain_watch.Indexer.History.{count_up, Whole, Stopped}
use chain_watch.Indexer.Sequential.{index_range}
use chain_watch.Rpc.Client.{beside_persistence}
use chain_watch.Rpc.Client.Committing.{QuietContext}
use chain_watch.Ethereum.Client.{
  observed_receipt, observed_log, get_latest_observed_block, get_observed_block_by_number,
  get_erc20_transfers_by_block,
}
use chain_watch.Ethereum.Client.Answers.{Answered, get_observed_block-Answered}
use chain_watch.Ethereum.Client.Fetching.{Fetched, get_erc20_transfers_by_block-Fetched}
use chain_watch.Ethereum.Client.RoundTrip.{emitted, decode-emitted}
use chain_watch.Ethereum.Tokens.{fetch_token_metadata}
use chain_watch.Ethereum.Tokens.Fetching.{TokenAnswer, fetch_token_metadata-TokenAnswer}
use chain_watch.Ethereum.Stack.Indexing.{application_client, index_range-application_client-Ends}
use chain_watch.Tests.Chain.{
  lib, lib-HashesRoundTrip, lib-AddressesWhole, sent, chain_node, chain_block, chain_abi, World,
  chain_node-AnswersAsked, chain_node-QuietNode, log_persistence-KeepsHistory, calm_context,
  answered_logs-IsLog, block_logs,
}
use chain_watch.Tests.Recording.{log_persistence}
use chain_watch.Tests.Indexers.{to_six}
use chain_watch.Tests.Services.{policy, no_counts}

abbrev fifth : ObservedBlock
fifth = record {
  number = 5;
  hash = lib.hash_hex (replicate 32 5);
  parent_hash = lib.hash_hex (replicate 32 4);
  timestamp = 0;
  transactions = [];
}

get_erc20_transfers_by_block-Fetched_example :
    Fetched lib fifth (ok block_logs, []) (get_erc20_transfers_by_block lib chain_node fifth [])
get_erc20_transfers_by_block-Fetched_example =
    get_erc20_transfers_by_block-Fetched lib lib-HashesRoundTrip chain_node fifth []
      answered_logs-IsLog

decode-emitted_example :
    decode_erc20_transfer lib
      (observed_log lib (emitted lib sent (replicate 32 8) 0 5))
      (lib.hash_hex (replicate 32 8))
    ≡ ok (record {
      token = lib.address_hex (replicate 20 4);
      from = lib.address_hex (replicate 20 1);
      to = lib.address_hex (replicate 20 2);
      value = some (pos 1000000);
      transaction_hash = lib.hash_hex (replicate 32 8);
      log_index = 0;
    })
decode-emitted_example =
    decode-emitted lib lib-HashesRoundTrip lib-AddressesWhole sent (replicate 32 8) 0 5 refl refl
      (omega arith)

get_observed_block-Answered_example :
    Answered lib chain_node
      (ok (chain_block 5), [])
      (get_observed_block_by_number lib chain_node 5 [])
    × Answered lib chain_node (ok (chain_block 9), []) (get_latest_observed_block lib chain_node [])
get_observed_block-Answered_example = get_observed_block-Answered lib chain_node 5 []

fetch_token_metadata-TokenAnswer_example :
    TokenAnswer lib chain_abi chain_node "0x4" []
      (fetch_token_metadata lib chain_abi chain_node "0x4" [])
fetch_token_metadata-TokenAnswer_example =
    fetch_token_metadata-TokenAnswer lib chain_abi chain_node "0x4" []

calm_context-QuietContext : QuietContext (λ (w : World). w) calm_context
calm_context-QuietContext = record { limiter_keeps = λ w. refl; sleep_keeps = λ d w. refl }

index_range-application_client-Ends_example :
    Ends
      (λ blocks after. Whole (count_up 5 1) "" [] blocks after.1)
      (λ after. Stopped (count_up 5 1) "" [] after.1)
      (index_range
        (application_client lib chain_abi chain_node calm_context policy)
        (beside_persistence log_persistence)
        5
        6
        (no_counts, []))
unfolding resume
index_range-application_client-Ends_example =
    index_range-application_client-Ends lib chain_abi chain_node calm_context policy (λ w. w)
      log_persistence chain_node-AnswersAsked chain_node-QuietNode calm_context-QuietContext
      log_persistence-KeepsHistory 5 6 no_counts [] none to_six (omega arith) (omega arith) refl
      refl

-- A contract is created for 21000 gas at 2 wei.
abbrev creation : Receipt
creation = record {
  tx_hash = replicate 32 8;
  status = 1;
  gas_used = 21000;
  effective_gas_price = some (pos 2);
  contract_address = replicate 20 4;
  logs = block_logs;
}

creation_observed :
    (successful (observed_receipt lib creation) ≡ true)
    × (log_count (observed_receipt lib creation) ≡ 2)
    × (fee_wei (observed_receipt lib creation) ≡ pos 42000)
    × ((observed_receipt lib creation).contract_address ≡ some (lib.address_hex (replicate 20 4)))
unfolding successful log_count fee_wei observed_receipt
creation_observed = (refl, refl, refl, refl)
