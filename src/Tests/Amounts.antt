-- ===== src/Tests/Amounts.antt =====
-- A formatted amount, and the configuration of a resilient client.
use chain_watch.Prelude.{ℕ, ◌≡◌, refl, [], ◌∷◌, ◌++◌, negsuc, some}
use chain_watch.Metadata.Amount.{
  Text, sign, absolute, pad, point, format_token_amount, with_point, trim_right,
}
use chain_watch.Metadata.Amount.Positions.{Split, format_token_amount-Split}

-- The digits of 150, for the one value that is formatted here.
abbrev one_fifty : ℕ → Text
one_fifty n = 49 ∷ 53 ∷ 48 ∷ []

-- -150 with four decimals is -0.015.
small_amount :
    format_token_amount one_fifty (some (negsuc 149)) 4 ≡ 45 ∷ 48 ∷ 46 ∷ 48 ∷ 49 ∷ 53 ∷ []
unfolding format_token_amount with_point pad trim_right
small_amount = refl

format_token_amount-Split_example :
    (whole fraction : Text) × (format_token_amount one_fifty (some (negsuc 149)) 4
      ≡ sign (negsuc 149) ++ (whole ++ point fraction))
    × Split 4 (one_fifty (absolute (negsuc 149))) whole fraction
format_token_amount-Split_example = format_token_amount-Split one_fifty (negsuc 149) 3
