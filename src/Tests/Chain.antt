-- ===== src/Tests/Chain.antt =====
-- A node with one transfer and one other log in each block, behind encoders that undo each other.
use chain_watch.Prelude.{
  ℕ, ◌-◌, ◌≡◌, refl, sym, ap, true, false, Option, none, some, List, [], ◌∷◌, pos, replicate, All,
  ◌==◌, string_eq, if◌then◌else◌,
}
use chain_watch.Errors.{nil, Result, ok, err}
use chain_watch.Domain.{BlockTransferIndex}
use chain_watch.Domain.Transfers.{Bytes, GoEthereum, erc20_transfer_topic}
use chain_watch.Ethereum.{EthereumBlock, Log, EthereumNode, Abi, text_value, uint8_value}
use chain_watch.Ethereum.Client.Logs.{HashesRoundTrip, IsLog}
use chain_watch.Ethereum.Client.RoundTrip.{TransferEvent, AddressesWhole, emitted}
use chain_watch.Indexer.History.{KeepsHistory}
use chain_watch.Ethereum.Stack.{AnswersAsked, QuietNode}
use chain_watch.Rpc.{RpcContext}
use chain_watch.Tests.Codec.{encode, decode, decode-encode}
use chain_watch.Tests.Recording.{log_persistence, log_save}

abbrev or_no_bytes : Option Bytes → Bytes
or_no_bytes none = []
or_no_bytes (some bytes) = bytes

abbrev pub lib : GoEthereum
lib = record {
  keccak256_hash = λ s. replicate 32 7;
  hex_to_hash = λ s. or_no_bytes (decode 0 s);
  hash_hex = encode;
  address_hex = encode;
  bytes_to_address = λ a. a;
  is_hex_address = λ s. true;
  hex_to_address = λ s. replicate 20 4;
}

pub lib-HashesRoundTrip : HashesRoundTrip lib
unfolding erc20_transfer_topic
lib-HashesRoundTrip = record {
  hash_round = λ h whole. ap or_no_bytes (decode-encode h);
  topic_length = refl;
}

pub lib-AddressesWhole : AddressesWhole lib
lib-AddressesWhole = record { address_kept = λ a whole. refl }

abbrev pub sent : TransferEvent
sent = record {
  contract = replicate 20 4;
  from = replicate 20 1;
  to = replicate 20 2;
  amount = 1000000;
}

abbrev pub other_log : Log
other_log = record {
  address = replicate 20 4;
  topics = replicate 32 9 ∷ [];
  payload = [];
  index = 1;
  tx_hash = replicate 32 8;
  block_number = 5;
  removed = false;
}

abbrev pub block_logs : List Log
block_logs = emitted lib sent (replicate 32 8) 0 5 ∷ other_log ∷ []

abbrev pub chain_block : ℕ → EthereumBlock
chain_block n = record {
  number_u64 = n;
  hash = replicate 32 n;
  parent_hash = replicate 32 (n - 1);
  time = 0;
  transactions =
      record {
        hash = replicate 32 8;
        to = some (replicate 20 4);
        value = pos 0;
        nonce = 3;
        gas = 21000;
        kind = 2;
      }
      ∷ [];
}

abbrev asked_or_latest : Option ℕ → ℕ
asked_or_latest none = 9
asked_or_latest (some n) = n

abbrev pub World : Type 0
World = List BlockTransferIndex

abbrev pub chain_node : EthereumNode World
chain_node = record {
  header_by_number = λ n w. (ok (record { number = 9; hash = replicate 32 9; time = 0 }), w);
  block_by_number = λ n w. (ok (chain_block (asked_or_latest n)), w);
  transaction_receipt = λ hash w. (err nil, w);
  filter_logs = λ query w. (ok block_logs, w);
  transaction_sender = λ tx hash index w. (ok (replicate 20 1), w);
  call_contract = λ message w. (ok [], w);
}

abbrev pub chain_abi : Abi
chain_abi = record {
  pack = λ method. ok [];
  unpack = λ method answer.
      ok ((if method == "decimals" then uint8_value 6 else text_value "USDC") ∷ []);
}

same_block : (a b : EthereumBlock) → ok a ≡ ok b → a ≡ b
same_block a b e = cc

pub chain_node-AnswersAsked : AnswersAsked chain_node
chain_node-AnswersAsked = record {
  asked_number = λ n w block e.
      ap (λ (b : EthereumBlock). b.number_u64) (sym (same_block (chain_block n) block e));
}

pub chain_node-QuietNode : QuietNode chain_node (λ (w : World). w)
chain_node-QuietNode = record {
  block_keeps = λ n w. refl;
  logs_keep = λ query w. refl;
  sender_keeps = λ tx hash index w. refl;
}

pub log_persistence-KeepsHistory : KeepsHistory (λ (w : World). w) log_persistence
log_persistence-KeepsHistory = record {
  load_keeps = λ w. refl;
  save_commits = λ index w e. refl;
  failed_save_keeps = log_save;
}

abbrev pub calm_context : RpcContext World
calm_context = record {
  limiter_wait = λ w. (nil, w);
  ctx_err = λ w. nil;
  jittered = λ w d. d;
  sleep = λ d w. (nil, w);
}

same_logs : (a b : List Log) → ok a ≡ ok b → a ≡ b
same_logs a b e = cc

block_logs-All : All IsLog block_logs
unfolding erc20_transfer_topic
block_logs-All = ((refl, (refl, (refl, tt))), ((refl, tt), tt))

pub answered_logs-IsLog :
    (logs : List Log) → ◌≡◌ {A = Result (List Log)} (ok block_logs) (ok logs) → All IsLog logs
answered_logs-IsLog logs e = rw (← same_logs block_logs logs e) block_logs-All
