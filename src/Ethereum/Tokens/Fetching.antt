-- ===== src/Ethereum/Tokens/Fetching.antt =====
-- What FetchTokenMetadata returns.
use chain_watch.Prelude.{◌≡◌, refl, String, true, false, [], ◌∷◌, Bool-cases, inl, inr, ◌⊎◌}
use chain_watch.Errors.{Result, ok, err, GoError, sentinel, rpc, is, invalid_token_address}
use chain_watch.Effects.{wrapping}
use chain_watch.Effects.Ends.{
  Ends, Ends-bind, Ends-pure, Ends-wrapping, Ends-mono, Ends-classifying,
}
use chain_watch.Effects.Failing.{
  RealErrors, pure-RealErrors, wrapping-RealErrors, bind-RealErrors, classifying-category,
}
use chain_watch.Domain.{Address}
use chain_watch.Domain.Transfers.{Bytes, GoEthereum}
use chain_watch.Metadata.{TokenMetadata}
use chain_watch.Ethereum.{EthereumNode, text_value, uint8_value, Abi}
use chain_watch.Ethereum.Tokens.{call_erc20_string_method, fetch_from, fetch_token_metadata}
use chain_watch.Ethereum.Tokens.Calls.{
  Unpacks, Trouble, IsOneText, IsOneUint8, string_method-Ends, decimals-Ends,
}

module _ (lib : GoEthereum) (abi : Abi) {W : Type 0} (node : EthereumNode W) where
  -- The three answers that token metadata is made of.
  pub record Told (to : Bytes) (m : TokenMetadata) : Type 0 where
    pub told_address : m.address ≡ lib.address_hex to
    pub told_name : Unpacks abi node to "name" (text_value m.name ∷ [])
    pub told_symbol : Unpacks abi node to "symbol" (text_value m.symbol ∷ [])
    pub told_decimals : Unpacks abi node to "decimals" (uint8_value m.decimals ∷ [])

  pub data NotTold (to : Bytes) : Type 0 where
    no_text :
        (method : String)
        → (method ≡ "name") ⊎ (method ≡ "symbol")
        → Trouble abi node to method IsOneText
        → NotTold to
    no_decimals : Trouble abi node to "decimals" IsOneUint8 → NotTold to

  -- The answers to a request for the metadata of an address.
  pub data TokenAnswer (address : Address) (w : W) (r : Result TokenMetadata × W) : Type 0 where
    token_refused :
        lib.is_hex_address address ≡ false
        → r ≡ (err (sentinel invalid_token_address), w)
        → TokenAnswer address w r
    token_failed :
        (e : GoError)
        → lib.is_hex_address address ≡ true
        → r.0 ≡ err e
        → is e rpc ≡ true
        → NotTold (lib.hex_to_address address)
        → TokenAnswer address w r
    token_told :
        (m : TokenMetadata)
        → lib.is_hex_address address ≡ true
        → r.0 ≡ ok m
        → Told (lib.hex_to_address address) m
        → TokenAnswer address w r

  -- A method that gives a text, inside the code that reports its errors.
  text-Ends :
      (to : Bytes) (method message : String)
      → (method ≡ "name") ⊎ (method ≡ "symbol")
      → (w : W)
      → Ends
          (λ s _. Unpacks abi node to method (text_value s ∷ []))
          (λ _. NotTold to)
          (wrapping message (call_erc20_string_method abi node to method) w)
  text-Ends to method message which w = Ends-wrapping message _ w (
      Ends-mono _ (string_method-Ends abi node to method w) (λ s after h. h)
        (λ after trouble. no_text method which trouble))

  fetch_from-Ends :
      (to : Bytes) (w : W)
      → Ends (λ m _. Told to m) (λ _. NotTold to) (fetch_from lib abi node to w)
  unfolding fetch_from
  fetch_from-Ends to w =
      Ends-bind (λ s _. Unpacks abi node to "name" (text_value s ∷ [])) _ _ w
        (text-Ends to "name" _ (inl refl) w)
        λ name w1 told_name.
          Ends-bind (λ s _. Unpacks abi node to "symbol" (text_value s ∷ [])) _ _ w1
            (text-Ends to "symbol" _ (inr refl) w1)
            λ symbol w2 told_symbol.
              Ends-bind (λ n _. Unpacks abi node to "decimals" (uint8_value n ∷ [])) _ _ w2
                (Ends-wrapping _ _ w2 (
                  Ends-mono _ (decimals-Ends abi node to w2) (λ n after h. h)
                    (λ after trouble. no_decimals trouble)))
                λ decimals w3 told_decimals. Ends-pure _ w3 (record {
                  told_address = refl;
                  told_name = told_name;
                  told_symbol = told_symbol;
                  told_decimals = told_decimals;
                })

  fetch_from-RealErrors : (to : Bytes) (w : W) → RealErrors (fetch_from lib abi node to w)
  unfolding fetch_from
  fetch_from-RealErrors to w = bind-RealErrors _ _ w (wrapping-RealErrors _ _ w) λ name w1.
      bind-RealErrors _ _ w1 (wrapping-RealErrors _ _ w1) λ symbol w2.
        bind-RealErrors _ _ w2 (wrapping-RealErrors _ _ w2) λ decimals w3. pure-RealErrors _ w3

  -- An address that is not hexadecimal is refused with ErrInvalidTokenAddress alone and no call is made.
  -- For any other address, metadata that is returned is what the contract answered to `name`, `symbol` and
  -- `decimals`, each as one value of its type, under the checksummed address; every error is one of ErrRPC,
  -- and there is one only if for one of the methods the call could not be packed, the node failed
  -- it, or what the contract answered to it does not unpack to one value of its type.
  pub fetch_token_metadata-TokenAnswer :
      (address : Address) (w : W)
      → TokenAnswer address w (fetch_token_metadata lib abi node address w)
  unfolding fetch_token_metadata
  fetch_token_metadata-TokenAnswer address w = elim (Bool-cases (lib.is_hex_address address)) [
    | inr refused ↦ rw refused (token_refused refused refl)
    | inl hex ↦ rw hex (
        split hex _ (Ends-classifying rpc "fetch ERC20 token metadata" _ w (fetch_from-Ends to w))
          (λ e h. classifying-category rpc _ _ w e (fetch_from-RealErrors to w) h))
  ]
    where
      to : Bytes
      to = lib.hex_to_address address

      split :
          lib.is_hex_address address ≡ true
          → (r : Result TokenMetadata × W) → Ends (λ m _. Told to m) (λ _. NotTold to) r
          → ((e : GoError) → r.0 ≡ err e → is e rpc ≡ true)
          → TokenAnswer address w r
      split hex (ok m, after) ends errors = token_told m hex refl (ends.returns m refl)
      split hex (err e, after) ends errors =
          token_failed e hex refl (errors e refl) (ends.fails e refl)
