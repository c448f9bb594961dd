-- ===== src/Domain/Transfers.antt =====
-- internal/domain/erc20_transfer.go and internal/domain/observed_receipt.go: logs and receipts, and the
-- transfer that a log tells of. A byte is a number; a common.Hash is its 32 bytes and a
-- common.Address its 20. The functions of go-ethereum on them are parameters.
pub mod Words
use chain_watch.Prelude.{
  ℕ, ◌+◌, ◌*◌, String, Bool, true, false, ◌&&◌, Option, none, some, List, [], ◌∷◌, ◌≡◌, ◌↔◌, Eq,
  ◌==◌, arith, nat_eq, nat_beq_iff, refl, string_eq, ℤ, pos, negsuc, length, drop, if◌then◌else◌,
}
use chain_watch.Errors.{Result, ok, err, sentinel, not_erc20_transfer, invalid_erc20_transfer_data}
use chain_watch.Domain.{Address, TransactionHash, Erc20Transfer}

abbrev pub Bytes : Type 0
Bytes = List ℕ

abbrev pub bytes_beq : Bytes → Bytes → Bool
bytes_beq [] [] = true
bytes_beq [] (b ∷ bs) = false
bytes_beq (a ∷ rest) [] = false
bytes_beq (a ∷ rest) (b ∷ bs) = let same = bytes_beq rest bs in a == b && same

pub bytes_beq_iff : (a b : Bytes) → (bytes_beq a b ≡ true) ↔ (a ≡ b)
bytes_beq_iff [] [] = (λ _. refl, λ _. refl)
bytes_beq_iff [] (b ∷ bs) = (λ h. cc, λ h. cc)
bytes_beq_iff (a ∷ rest) [] = (λ h. cc, λ h. cc)
bytes_beq_iff (a ∷ rest) (b ∷ bs) = grind (arith, nat_beq_iff a b, bytes_beq_iff rest bs)

instance abbrev pub bytes_eq : Eq Bytes
bytes_eq = record { beq = bytes_beq; beq_iff = bytes_beq_iff }

-- Keccak256Hash of a text, HexToHash, Hash.Hex, Address.Hex, BytesToAddress, IsHexAddress and
-- HexToAddress.
pub record GoEthereum : Type 0 where
  pub keccak256_hash : String → Bytes
  pub hex_to_hash : String → Bytes
  pub hash_hex : Bytes → String
  pub address_hex : Bytes → String
  pub bytes_to_address : Bytes → Bytes
  pub is_hex_address : String → Bool
  pub hex_to_address : String → Bytes

-- `payload` is the field `Data`.
pub record ObservedLog : Type 0 where
  pub address : Address
  pub topics : List String
  pub payload : Bytes
  pub index : ℕ
  pub transaction_hash : TransactionHash
  pub block_number : ℕ
  pub removed : Bool

pub record ObservedReceipt : Type 0 where
  pub transaction_hash : TransactionHash
  pub status : ℕ
  pub gas_used : ℕ
  pub effective_gas_price : Option ℤ
  pub contract_address : Option Address
  pub logs : List ObservedLog

unfoldable pub successful : ObservedReceipt → Bool
successful r = r.status == 1

unfoldable pub log_count : ObservedReceipt → ℕ
log_count r = length r.logs

abbrev pub times : ℕ → ℤ → ℤ
times g (pos p) = pos (g * p)
times ℕ.zero (negsuc n) = pos 0
times (ℕ.suc g) (negsuc n) = negsuc (g + n + g * n)

abbrev pub fee_at : ℕ → Option ℤ → ℤ
fee_at gas none = pos 0
fee_at gas (some price) = times gas price

unfoldable pub fee_wei : ObservedReceipt → ℤ
fee_wei r = fee_at r.gas_used r.effective_gas_price

-- `SetBytes`: the number that bytes spell, the most significant byte first.
unfoldable pub set_bytes : ℕ → Bytes → ℕ
set_bytes high [] = high
set_bytes high (b ∷ bs) = set_bytes (high * 256 + b) bs

-- An index into the topics; each use is behind the test of their number.
unfoldable pub topic_at : ℕ → List String → String
topic_at n [] = ""
topic_at ℕ.zero (t ∷ ts) = t
topic_at (ℕ.suc n) (t ∷ ts) = topic_at n ts

module _ (lib : GoEthereum) where
  unfoldable pub erc20_transfer_topic : Bytes
  erc20_transfer_topic = lib.keccak256_hash "Transfer(address,address,uint256)"

  unfoldable pub is_erc20_transfer_log : ObservedLog → Bool
  is_erc20_transfer_log log =
      if length log.topics == 3
      then lib.hex_to_hash (topic_at 0 log.topics) == erc20_transfer_topic
      else false

  unfoldable pub address_from_topic : String → Address
  address_from_topic topic =
      lib.address_hex (lib.bytes_to_address (drop 12 (lib.hex_to_hash topic)))

  unfoldable pub decode_erc20_transfer : ObservedLog → TransactionHash → Result Erc20Transfer
  decode_erc20_transfer log transaction_hash =
      if is_erc20_transfer_log log
      then if length log.payload == 32
        then ok (record {
          token = log.address;
          from = address_from_topic (topic_at 1 log.topics);
          to = address_from_topic (topic_at 2 log.topics);
          value = some (pos (set_bytes 0 log.payload));
          transaction_hash = transaction_hash;
          log_index = log.index;
        })
        else err (sentinel invalid_erc20_transfer_data)
      else err (sentinel not_erc20_transfer)
