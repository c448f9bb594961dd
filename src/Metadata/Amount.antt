-- ===== src/Metadata/Amount.antt =====
-- internal/metadata/token_amount.go: a token amount as text, by character codes. The decimal digits of
-- a `big.Int` are a parameter.
pub mod Positions
use chain_watch.Prelude.{
  ℕ, zero, suc, ◌+◌, ◌-◌, Bool, true, false, ◌&&◌, Option, none, some, List, [], ◌∷◌, ◌++◌, ◌==◌,
  nat_eq, leb, length, take, drop, replicate, ℤ, pos, negsuc, if◌then◌else◌,
}

abbrev pub Text : Type 0
Text = List ℕ

abbrev pub absolute : ℤ → ℕ
absolute (pos n) = n
absolute (negsuc n) = suc n

abbrev pub sign : ℤ → Text
sign (pos n) = []
sign (negsuc n) = 45 ∷ []

abbrev pub is_empty : Text → Bool
is_empty [] = true
is_empty (c ∷ cs) = false

-- `strings.TrimRight(s, "0")`.
unfoldable pub trim_right : Text → Text
trim_right [] = []
trim_right (c ∷ cs) = let rest = trim_right cs in if c == 48 && is_empty rest then [] else c ∷ rest

unfoldable pub pad : ℕ → Text → Text
pad decimals digits =
    if leb (length digits) decimals
    then replicate (decimals - length digits + 1) 48 ++ digits
    else digits

abbrev pub point : Text → Text
point [] = []
point (c ∷ cs) = 46 ∷ c ∷ cs

-- From the padded digits on: the whole part, and the fraction behind the point.
unfoldable pub with_point : ℕ → Text → Text
with_point decimals digits =
    take (length digits - decimals) digits
    ++ point (trim_right (drop (length digits - decimals) digits))

unfoldable pub format_token_amount : (ℕ → Text) → Option ℤ → ℕ → Text
format_token_amount decimal_digits none decimals = 48 ∷ []
format_token_amount decimal_digits (some value) zero = sign value ++ decimal_digits (absolute value)
format_token_amount decimal_digits (some value) (suc d) =
    sign value ++ with_point (suc d) (pad (suc d) (decimal_digits (absolute value)))
