-- ===== src/Tests/Services.antt =====
-- The ledger, the resilient calls, the polling loop and the metadata cache at concrete inputs.
use chain_watch.Prelude.{
  ℕ, ◌*◌, ◌/◌, ◌≡◌, false, refl, none, some, [], ◌∷◌, arith, String, string_eq, lookup,
}
use chain_watch.Errors.{GoError, nil, ok, err, sentinel, eof, is_nil}
use chain_watch.Effects.{Action}
use chain_watch.Effects.Ends.{Ends}
use chain_watch.Blockchain.{Transaction, Block, Blockchain, process_transaction, process_block}
use chain_watch.Blockchain.Balances.{total}
use chain_watch.Blockchain.Ledger.{Applied, Accepted, process_transaction-Ends, process_block-Ends}
use chain_watch.Rpc.{RpcContext, RetryPolicy, RpcCounters, execute_resilient_rpc}
use chain_watch.Rpc.Attempts.{Counted, execute_resilient_rpc-Counted}
use chain_watch.Metadata.{TokenMetadata, MetadataSources, TokenMetadataService, get_token_metadata}
use chain_watch.Metadata.Cache.{get_token_metadata-Ends}

abbrev ledger : Blockchain
ledger = record {
  blocks = [];
  balances = ("ann", 10) ∷ ("bob", 5) ∷ [];
  processed_transactions = [];
}

abbrev payment : Transaction
payment = record { hash = "t1"; from = "ann"; to = "bob"; value_wei = 4; gas_used = 21000 }

abbrev paid : Block
paid = record { number = 1; hash = "b1"; transactions = payment ∷ []; timestamp = 7 }

process_transaction-Ends_example :
    Ends
      (λ u after. Applied (payment ∷ []) ledger after)
      (λ after. after ≡ ledger)
      (process_transaction payment ledger)
unfolding total
process_transaction-Ends_example = process_transaction-Ends payment ledger (omega arith)

process_block-Ends_example :
    Ends
      (λ u after. Accepted paid ledger after)
      (λ after. after ≡ ledger)
      (process_block paid ledger)
unfolding total
process_block-Ends_example = process_block-Ends paid ledger (omega arith)

abbrev pub policy : RetryPolicy
policy = record { max_attempts = 3; initial_backoff = 250; max_backoff = 2000 }

abbrev calm : RpcContext (Unit {0})
calm = record {
  limiter_wait = λ w. (nil, w);
  ctx_err = λ w. nil;
  jittered = λ w d. d * 11 / 10;
  sleep = λ d w. (nil, w);
}

abbrev pub no_counts : RpcCounters
no_counts = record { rpc_requests = 0; rpc_failures = 0; rpc_retries = 0 }

abbrev failing_call : Action (Unit {0}) ℕ
failing_call w = (err (sentinel eof), w)

execute_resilient_rpc-Counted_example :
    Counted 3 no_counts (execute_resilient_rpc calm policy failing_call no_counts tt)
execute_resilient_rpc-Counted_example =
    execute_resilient_rpc-Counted calm policy failing_call no_counts tt

failing_call-real : (w : Unit {0}) (e : GoError) → (failing_call w).0 ≡ err e → is_nil e ≡ false
failing_call-real w nil h = cc
failing_call-real w (sentinel s) h = refl
failing_call-real w e h = cc

abbrev usdc : TokenMetadata
usdc = record { address = "0xa0"; name = "USD Coin"; symbol = "USDC"; decimals = 6 }

abbrev chain_only : MetadataSources (Unit {0})
chain_only = record {
  fetch_token_metadata = λ a w. (ok usdc, w);
  load_token_metadata = λ a w. (ok none, w);
  save_token_metadata = λ m w. (ok tt, w);
}

abbrev same_text : String → String
same_text s = s

abbrev unused_cache : TokenMetadataService (Unit {0})
unused_cache = record { cache = []; outside = tt }

get_token_metadata-Ends_example :
    Ends
      (λ m after. lookup "0xa0" after.cache ≡ some m)
      (λ after. after.cache ≡ [])
      (get_token_metadata same_text chain_only "0xa0" unused_cache)
get_token_metadata-Ends_example = get_token_metadata-Ends same_text chain_only "0xa0" unused_cache
