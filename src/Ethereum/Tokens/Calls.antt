-- ===== src/Ethereum/Tokens/Calls.antt =====
-- What one call of a token's contract gives.
use chain_watch.Prelude.{◌≡◌, String, List, [], ◌∷◌, ℕ}
use chain_watch.Errors.{ok, err, GoError}
use chain_watch.Effects.Ends.{Ends, Ends-bind, Ends-given, Ends-wrapping}
use chain_watch.Domain.Transfers.{Bytes}
use chain_watch.Ethereum.{EthereumNode, AbiValue, text_value, uint8_value, other_value, Abi}
use chain_watch.Ethereum.Tokens.{
  one_text, one_uint8, call_method, call_erc20_string_method, call_erc20_decimals,
}

one_text-text :
    (values : List AbiValue) (s : String) → one_text values ≡ ok s → values ≡ text_value s ∷ []
one_text-text [] s h = cc
one_text-text (text_value t ∷ []) s h = cc
one_text-text (uint8_value n ∷ []) s h = cc
one_text-text (other_value ∷ []) s h = cc
one_text-text (v ∷ w ∷ rest) s h = cc

one_uint8-uint8 :
    (values : List AbiValue) (n : ℕ) → one_uint8 values ≡ ok n → values ≡ uint8_value n ∷ []
one_uint8-uint8 [] n h = cc
one_uint8-uint8 (text_value t ∷ []) n h = cc
one_uint8-uint8 (uint8_value m ∷ []) n h = cc
one_uint8-uint8 (other_value ∷ []) n h = cc
one_uint8-uint8 (v ∷ w ∷ rest) n h = cc

abbrev pub IsOneText : List AbiValue → Type 0
IsOneText values = (s : String) × (values ≡ text_value s ∷ [])

abbrev pub IsOneUint8 : List AbiValue → Type 0
IsOneUint8 values = (n : ℕ) × (values ≡ uint8_value n ∷ [])

module _ (abi : Abi) {W : Type 0} (node : EthereumNode W) where
  -- The contract answered the call of the method, and the answer unpacks to the values.
  pub record Unpacks (to : Bytes) (method : String) (values : List AbiValue) : Type 0 where
    pub input : Bytes
    pub packed : abi.pack method ≡ ok input
    pub asked : W
    pub answer : Bytes
    pub answered : (node.call_contract (record { to = to; input = input }) asked).0 ≡ ok answer
    pub unpacked : abi.unpack method answer ≡ ok values

  -- Why a method gave no value of its type: it was not packed, the call of the packed input
  -- failed, the contract's answer to it was not unpacked, or what it unpacks to is not one value of the type.
  pub data Trouble (to : Bytes) (method : String) (Fits : List AbiValue → Type 0) : Type 0 where
    not_packed : (e : GoError) → abi.pack method ≡ err e → Trouble to method Fits
    not_answered :
        (input : Bytes) (asked : W) (e : GoError)
        → abi.pack method ≡ ok input
        → (node.call_contract (record { to = to; input = input }) asked).0 ≡ err e
        → Trouble to method Fits
    not_unpacked :
        (input : Bytes) (asked : W) (answer : Bytes) (e : GoError)
        → abi.pack method ≡ ok input
        → (node.call_contract (record { to = to; input = input }) asked).0 ≡ ok answer
        → abi.unpack method answer ≡ err e
        → Trouble to method Fits
    not_fitting :
        (values : List AbiValue)
        → Unpacks to method values
        → (Fits values → ⊥)
        → Trouble to method Fits

  call_method-Ends :
      (to : Bytes) (method : String) (Fits : List AbiValue → Type 0) (w : W)
      → Ends
          (λ values _. Unpacks to method values)
          (λ _. Trouble to method Fits)
          (call_method abi node to method w)
  unfolding call_method
  call_method-Ends to method Fits w =
      Ends-bind (λ input _. abi.pack method ≡ ok input) _ _ w
        (Ends-wrapping _ _ w (Ends-given (abi.pack method) w (λ a h. h) not_packed))
        λ input asked packed.
          Ends-bind
            (λ answer _.
              (node.call_contract (record { to = to; input = input }) asked).0 ≡ ok answer)
            _ _ asked
            (Ends-wrapping _ (node.call_contract (record { to = to; input = input })) asked
              (record { returns = λ a h. h; fails = λ e h. not_answered input asked e packed h }))
            λ answer after answered. Ends-wrapping _ _ after (
              Ends-given (abi.unpack method answer) after
                (λ values unpacked. record {
                  input = input;
                  packed = packed;
                  asked = asked;
                  answer = answer;
                  answered = answered;
                  unpacked = unpacked;
                })
                (λ e h. not_unpacked input asked answer e packed answered h))

  pub string_method-Ends :
      (to : Bytes) (method : String) (w : W)
      → Ends
          (λ s _. Unpacks to method (text_value s ∷ []))
          (λ _. Trouble to method IsOneText)
          (call_erc20_string_method abi node to method w)
  unfolding call_erc20_string_method
  string_method-Ends to method w =
      Ends-bind (λ values _. Unpacks to method values) _ _ w
        (call_method-Ends to method IsOneText w)
        λ values after unpacks.
          Ends-given (one_text values) after (λ s h. rw (← one_text-text values s h) unpacks)
            λ e h. not_fitting values unpacks λ fits. one_text_fits values e h fits.0 fits.1
    where
      one_text_fits :
          (values : List AbiValue) (e : GoError)
          → one_text values ≡ err e
          → (s : String) → values ≡ text_value s ∷ []
          → ⊥
      one_text_fits values e h s same = no_error (rw same at h)
        where
          no_error : one_text (text_value s ∷ []) ≡ err e → ⊥
          no_error h = cc

  pub decimals-Ends :
      (to : Bytes) (w : W)
      → Ends
          (λ n _. Unpacks to "decimals" (uint8_value n ∷ []))
          (λ _. Trouble to "decimals" IsOneUint8)
          (call_erc20_decimals abi node to w)
  unfolding call_erc20_decimals
  decimals-Ends to w =
      Ends-bind (λ values _. Unpacks to "decimals" values) _ _ w
        (call_method-Ends to "decimals" IsOneUint8 w)
        λ values after unpacks.
          Ends-given (one_uint8 values) after (λ n h. rw (← one_uint8-uint8 values n h) unpacks)
            λ e h. not_fitting values unpacks λ fits. one_uint8_fits values e h fits.0 fits.1
    where
      one_uint8_fits :
          (values : List AbiValue) (e : GoError)
          → one_uint8 values ≡ err e
          → (n : ℕ) → values ≡ uint8_value n ∷ []
          → ⊥
      one_uint8_fits values e h n same = no_error (rw same at h)
        where
          no_error : one_uint8 (uint8_value n ∷ []) ≡ err e → ⊥
          no_error h = cc
