-- ===== src/Ethereum/Client/RoundTrip.antt =====
-- A transfer that a token emits, and what the program decodes of it.
use chain_watch.Prelude.{ℕ, ◌<◌, ◌^◌, ◌≡◌, ◌∙◌, refl, false, some, [], ◌∷◌, pos, length, arith}
use chain_watch.Errors.{ok}
use chain_watch.Domain.Transfers.{Bytes, GoEthereum, erc20_transfer_topic, decode_erc20_transfer}
use chain_watch.Domain.Transfers.Words.{word, padded, length-word, set_bytes-word}
use chain_watch.Ethereum.{Log}
use chain_watch.Ethereum.Client.{observed_log}
use chain_watch.Ethereum.Client.Logs.{HashesRoundTrip, IsLog, IsEvent, decode_told}

pub record TransferEvent : Type 0 where
  pub contract : Bytes
  pub from : Bytes
  pub to : Bytes
  pub amount : ℕ

-- A common.Address has 20 bytes, and BytesToAddress keeps them.
pub record AddressesWhole (lib : GoEthereum) : Type 0 where
  pub address_kept : (a : Bytes) → length a ≡ 20 → lib.bytes_to_address a ≡ a

-- The log of the event as the ABI encodes it: the addresses are topics, the amount is the data.
abbrev pub emitted : GoEthereum → TransferEvent → Bytes → ℕ → ℕ → Log
emitted lib e tx_hash index block_number = record {
  address = e.contract;
  topics = erc20_transfer_topic lib ∷ padded e.from ∷ padded e.to ∷ [];
  payload = word 32 e.amount;
  index = index;
  tx_hash = tx_hash;
  block_number = block_number;
  removed = false;
}

length-padded : (a : Bytes) → length a ≡ 20 → length (padded a) ≡ 32
length-padded a h = omega (arith, h)

module _ (lib : GoEthereum) (hashes : HashesRoundTrip lib) (whole : AddressesWhole lib) where
  -- What a token emits for a transfer of less than 2^256 between two addresses of 20 bytes decodes to
  -- that transfer: its contract, both addresses, the amount, the transaction and the index. This
  -- supposes that HexToHash undoes Hash.Hex, that the event's topic has 32 bytes, and that
  -- BytesToAddress keeps 20 bytes.
  pub decode-emitted :
      (e : TransferEvent) (tx_hash : Bytes) (index block_number : ℕ)
      → length e.from ≡ 20
      → length e.to ≡ 20
      → e.amount < 2 ^ 256
      → decode_erc20_transfer lib
          (observed_log lib (emitted lib e tx_hash index block_number))
          (lib.hash_hex tx_hash)
        ≡ ok (record {
          token = lib.address_hex e.contract;
          from = lib.address_hex e.from;
          to = lib.address_hex e.to;
          value = some (pos e.amount);
          transaction_hash = lib.hash_hex tx_hash;
          log_index = index;
        })
  unfolding observed_log
  decode-emitted e tx_hash index block_number hf ht fits =
      decode_told lib hashes (emitted lib e tx_hash index block_number) topics event
        (length-word 32 e.amount)
      ∙ rw
          (
            whole.address_kept e.from hf,
            whole.address_kept e.to ht,
            set_bytes-word 32 e.amount fits,
          )
          refl
    where
      topics : IsLog (emitted lib e tx_hash index block_number)
      topics = (hashes.topic_length, (length-padded e.from hf, (length-padded e.to ht, tt)))

      event : IsEvent lib (emitted lib e tx_hash index block_number)
      event = record { from_topic = padded e.from; to_topic = padded e.to; event = refl }
