-- ===== src/Domain.antt =====
-- internal/domain: the values that the packages share. A `uint64` or `uint` is a number, with its
-- bound stated where it matters; `*big.Int` is an optional integer, `none` for nil.
pub mod Transfers
use chain_watch.Prelude.{ℕ, ◌%◌, ◌^◌, String, Option, List, ℤ, length}

abbrev pub Address : Type 0
Address = String

abbrev pub TransactionHash : Type 0
TransactionHash = String

abbrev pub BlockHash : Type 0
BlockHash = String

abbrev pub u64_mod : ℕ
u64_mod = 2 ^ 64

-- The wrap-around of uint64 arithmetic.
abbrev pub u64 : ℕ → ℕ
u64 n = n % 2 ^ 64

pub record Erc20Transfer : Type 0 where
  pub token : Address
  pub from : Address
  pub to : Address
  pub value : Option ℤ
  pub transaction_hash : TransactionHash
  pub log_index : ℕ

pub record BlockTransferIndex : Type 0 where
  pub block_number : ℕ
  pub block_hash : BlockHash
  pub parent_hash : BlockHash
  pub transfers : List Erc20Transfer

unfoldable pub transfer_count : BlockTransferIndex → ℕ
transfer_count index = length index.transfers

-- The last durably indexed canonical block.
pub record BlockCheckpoint : Type 0 where
  pub number : ℕ
  pub hash : BlockHash

pub record ObservedTransaction : Type 0 where
  pub hash : TransactionHash
  pub from : Address
  pub to : Option Address
  pub value_wei : ℤ
  pub nonce : ℕ
  pub gas_limit : ℕ
  pub kind : ℕ

pub record ObservedBlock : Type 0 where
  pub number : ℕ
  pub hash : BlockHash
  pub parent_hash : BlockHash
  pub timestamp : ℕ
  pub transactions : List ObservedTransaction
