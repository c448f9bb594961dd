-- ===== src/Ethereum.antt =====
-- What internal/ethereum uses of go-ethereum: the values that a node answers with, by the accessors
-- that the client calls, and the calls of a node in a world that may change between them.
pub mod Client
pub mod Tokens
pub mod Stack
use chain_watch.Prelude.{ℕ, String, Bool, Option, List, ℤ}
use chain_watch.Errors.{Result}
use chain_watch.Effects.{Action}
use chain_watch.Domain.Transfers.{Bytes}

-- types.Header: `header.Number`, which is not nil and not negative, `header.Hash()` and `header.Time`.
pub record Header : Type 0 where
  pub number : ℕ
  pub hash : Bytes
  pub time : ℕ

-- types.Transaction.
pub record EthereumTransaction : Type 0 where
  pub hash : Bytes
  pub to : Option Bytes
  pub value : ℤ
  pub nonce : ℕ
  pub gas : ℕ
  pub kind : ℕ

-- types.Block.
pub record EthereumBlock : Type 0 where
  pub number_u64 : ℕ
  pub hash : Bytes
  pub parent_hash : Bytes
  pub time : ℕ
  pub transactions : List EthereumTransaction

-- types.Log.
pub record Log : Type 0 where
  pub address : Bytes
  pub topics : List Bytes
  pub payload : Bytes
  pub index : ℕ
  pub tx_hash : Bytes
  pub block_number : ℕ
  pub removed : Bool

-- types.Receipt; its logs are pointers, none of them nil.
pub record Receipt : Type 0 where
  pub tx_hash : Bytes
  pub status : ℕ
  pub gas_used : ℕ
  pub effective_gas_price : Option ℤ
  pub contract_address : Bytes
  pub logs : List Log

pub record FilterQuery : Type 0 where
  pub block_hash : Bytes
  pub topics : List (List Bytes)

pub record CallMsg : Type 0 where
  pub to : Bytes
  pub input : Bytes

-- The methods of ethclient.Client that are called; `none` asks for the latest block.
pub record EthereumNode (W : Type 0) : Type 0 where
  pub header_by_number : Option ℕ → Action W Header
  pub block_by_number : Option ℕ → Action W EthereumBlock
  pub transaction_receipt : Bytes → Action W Receipt
  pub filter_logs : FilterQuery → Action W (List Log)
  pub transaction_sender : EthereumTransaction → Bytes → ℕ → Action W Bytes
  pub call_contract : CallMsg → Action W Bytes

-- What a value that the ABI unpacks may be.
pub data AbiValue : Type 0 where
  text_value : String → AbiValue
  uint8_value : ℕ → AbiValue
  other_value : AbiValue

-- `Pack` of a method without arguments, and `Unpack` of the answer to it.
pub record Abi : Type 0 where
  pub pack : String → Result Bytes
  pub unpack : String → Bytes → Result (List AbiValue)
