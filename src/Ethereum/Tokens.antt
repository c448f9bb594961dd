-- ===== src/Ethereum/Tokens.antt =====
-- internal/ethereum/ethereum_metadata.go: the name, the symbol and the decimals of a token, by calls of
-- its contract. The ABI that is parsed at the start has these three methods.
pub mod Calls
pub mod Fetching
use chain_watch.Prelude.{ℕ, String, Bool, true, false, List, [], ◌∷◌, if◌then◌else◌}
use chain_watch.Errors.{Result, ok, err, sentinel, text, wrap, rpc, invalid_token_address}
use chain_watch.Effects.{Action, pure, fail, give, wrapping, classifying, ◌>>=◌}
use chain_watch.Domain.{Address}
use chain_watch.Domain.Transfers.{Bytes, GoEthereum}
use chain_watch.Metadata.{TokenMetadata}
use chain_watch.Ethereum.{EthereumNode, AbiValue, text_value, uint8_value, other_value, Abi}

-- The type assertions.
abbrev pub as_text : AbiValue → Result String
as_text (text_value s) = ok s
as_text _ = err (text "unexpected %s result type")

abbrev pub as_uint8 : AbiValue → Result ℕ
as_uint8 (uint8_value n) = ok n
as_uint8 _ = err (text "unexpected decimals result type")

abbrev pub one_text : List AbiValue → Result String
one_text (v ∷ []) = as_text v
one_text _ = err (text "expected one %s result, got %d")

abbrev pub one_uint8 : List AbiValue → Result ℕ
one_uint8 (v ∷ []) = as_uint8 v
one_uint8 _ = err (text "expected one decimals result, got %d")

module _ (abi : Abi) {W : Type 0} (node : EthereumNode W) where
  -- The call of a method without arguments, up to the values that it answers with.
  unfoldable pub call_method : Bytes → String → Action W (List AbiValue)
  call_method address method = do
    input ← wrapping "failed to encode %s call" (give (abi.pack method))
    answer ←
        wrapping "%s eth_call failed" (node.call_contract (record { to = address; input = input }))
    wrapping "failed to decode %s result" (give (abi.unpack method answer))

  unfoldable pub call_erc20_string_method : Bytes → String → Action W String
  call_erc20_string_method address method = do
    values ← call_method address method
    give (one_text values)

  unfoldable pub call_erc20_decimals : Bytes → Action W ℕ
  call_erc20_decimals address = do values ← call_method address "decimals"; give (one_uint8 values)

module _ (lib : GoEthereum) (abi : Abi) {W : Type 0} (node : EthereumNode W) where
  unfoldable pub fetch_from : Bytes → Action W TokenMetadata
  fetch_from address = do
    name ← wrapping "failed to fetch token name" (call_erc20_string_method abi node address "name")
    symbol ←
        wrapping "failed to fetch token symbol" (call_erc20_string_method abi node address "symbol")
    decimals ← wrapping "failed to fetch token decimals" (call_erc20_decimals abi node address)
    pure (record {
      address = lib.address_hex address;
      name = name;
      symbol = symbol;
      decimals = decimals;
    })

  -- The test of the address stands before the deferred ClassifyError.
  unfoldable pub fetch_token_metadata : Address → Action W TokenMetadata
  fetch_token_metadata address w =
      if lib.is_hex_address address
      then classifying rpc "fetch ERC20 token metadata" (fetch_from (lib.hex_to_address address)) w
      else (err (sentinel invalid_token_address), w)
