-- ===== src/Metadata/Amount/Positions.antt =====
-- Where the point of a formatted amount stands.
use chain_watch.Prelude.{
  ℕ, zero, suc, ◌+◌, ◌-◌, ◌<◌, ◌≡◌, ◌≢◌, ◌∙◌, refl, ap, true, false, leb, ◌&&◌, some, [], ◌∷◌, ◌++◌,
  ◌==◌, nat_eq, nat_beq_iff, Bool-cases, inl, inr, length, take, drop, replicate, length-append,
  take-append-drop, ℤ, arith,
}
use chain_watch.Metadata.Amount.{
  Text, absolute, sign, is_empty, trim_right, pad, point, with_point, format_token_amount,
}

-- The digits, with as many zeros in front as a whole part of one digit needs and no more, are a whole
-- part, a fraction that does not end with a zero, and trailing zeros; fraction and trailing zeros are
-- `decimals` long.
pub record Split (decimals : ℕ) (digits whole fraction : Text) : Type 0 where
  pub leading : ℕ
  pub zeros : ℕ
  pub whole_digits : 0 < length whole
  pub least_leading : 0 < leading → length whole ≡ 1
  pub same_digits : whole ++ (fraction ++ replicate zeros 48) ≡ replicate leading 48 ++ digits
  pub places : length fraction + zeros ≡ decimals
  pub trimmed : (s : Text) → fraction ≢ s ++ 48 ∷ []

nil-ne-append : (s : Text) → ◌≢◌ {A = Text} [] (s ++ 48 ∷ [])
nil-ne-append [] h = cc
nil-ne-append (d ∷ s) h = cc

trim_right-trimmed : (cs s : Text) → trim_right cs ≢ s ++ 48 ∷ []
unfolding trim_right
trim_right-trimmed [] s h = nil-ne-append s h
trim_right-trimmed (c ∷ cs) s h = elim (Bool-cases (c == 48 && is_empty (trim_right cs))) [
  | inl dropped ↦ nil-ne-append s (rw dropped at h)
  | inr kept ↦ last_digit (trim_right cs) s kept (trim_right-trimmed cs) (rw kept at h)
]
  where
    last_digit :
        (rest t : Text)
        → (c == 48 && is_empty rest) ≡ false
        → ((u : Text) → rest ≢ u ++ 48 ∷ [])
        → c ∷ rest ≢ t ++ 48 ∷ []
    last_digit [] [] kept none_behind e = let zero_digit : c ≡ 48 = cc in cc (rw zero_digit at kept)
    last_digit (d ∷ rest) [] kept none_behind e = cc
    last_digit rest (d ∷ t) kept none_behind e = none_behind t (cc)

trimmed-zeros : (s : Text) → (k : ℕ) × (trim_right s ++ replicate k 48 ≡ s)
unfolding trim_right
trimmed-zeros [] = (0, refl)
trimmed-zeros (c ∷ cs) = with_rest (trim_right cs) refl (trimmed-zeros cs)
  where
    all_zeros :
        (rest zeros : Text)
        → (c == 48 && is_empty rest) ≡ true
        → rest ++ zeros ≡ cs
        → 48 ∷ zeros ≡ c ∷ cs
    all_zeros [] zeros e h =
        let same : c ≡ 48 = (nat_beq_iff c 48).0 (ground arith) in rw (same, h) refl
    all_zeros (d ∷ rest) zeros e h = ground arith

    with_rest :
        (rest : Text)
        → trim_right cs ≡ rest
        → (k : ℕ) × (trim_right cs ++ replicate k 48 ≡ cs)
        → (k : ℕ) × (trim_right (c ∷ cs) ++ replicate k 48 ≡ c ∷ cs)
    with_rest rest at (k, same) = elim (Bool-cases (c == 48 && is_empty rest)) [
      | inl dropped ↦
          rw (at, dropped) (suc k, all_zeros rest (replicate k 48) dropped (rw at at same))
      | inr kept ↦ rw (at, kept) (k, rw (rw at at same) refl)
    ]

length-replicate : (n c : ℕ) → length (replicate n c) ≡ n
length-replicate zero c = refl
length-replicate (suc n) c = omega (arith, length-replicate n c)

length-drop : (n : ℕ) (s : Text) → length (drop n s) ≡ length s - n
length-drop zero s = omega arith
length-drop (suc n) [] = omega arith
length-drop (suc n) (c ∷ s) = omega (arith, length-drop n s)

-- How many zeros are put in front of digits.
abbrev padding : ℕ → Text → ℕ
padding decimals digits = decimals + 1 - length digits

pad-padding :
    (decimals : ℕ) (digits : Text)
    → (pad decimals digits ≡ replicate (padding decimals digits) 48 ++ digits)
unfolding pad
pad-padding decimals digits = elim (Bool-cases (leb (length digits) decimals)) [
  | inl short ↦
      let same : decimals - length digits + 1 ≡ padding decimals digits = ground arith in
      rw (short, same) refl
  | inr enough ↦
      let none_needed : padding decimals digits ≡ 0 = ground arith in rw (enough, none_needed) refl
]

cut_at_point :
    (decimals : ℕ) (digits s : Text)
    → s ≡ replicate (padding decimals digits) 48 ++ digits
    → Split decimals digits
        (take (length s - decimals) s)
        (trim_right (drop (length s - decimals) s))
cut_at_point decimals digits s padded =
    let at = length s - decimals in
    let long : length s ≡ padding decimals digits + length digits = omega (
      arith,
      ap length padded,
      length-append (replicate (padding decimals digits) 48) digits,
      length-replicate (padding decimals digits) 48,
    ) in
    let (k, same) = trimmed-zeros (drop at s) in
    record {
      leading = padding decimals digits;
      zeros = k;
      least_leading = λ some_leading. omega (
        arith,
        ap length (take-append-drop at s),
        length-append (take at s) (drop at s),
        length-drop at s,
      );
      trimmed = trim_right-trimmed (drop at s);
      whole_digits = omega (
        arith,
        ap length (take-append-drop at s),
        length-append (take at s) (drop at s),
        length-drop at s,
      );
      same_digits = rw same (take-append-drop at s ∙ padded);
      places = omega (
        arith,
        ap length same,
        length-append (trim_right (drop at s)) (replicate k 48),
        length-replicate k 48,
        length-drop at s,
      );
    }

-- With decimals, an amount is formatted as its sign, a whole part of at least one digit and, behind a
-- point if it is not empty, a fraction that does not end with a zero. Followed by the zeros that were cut
-- off they are the digits of the value with zeros in front, which are there only as far as the whole part
-- needs them for its one digit; the fraction and the zeros cut off are as many as there are decimals.
pub format_token_amount-Split :
    (decimal_digits : ℕ → Text) (value : ℤ) (d : ℕ)
    → (whole fraction : Text) × (format_token_amount decimal_digits (some value) (suc d)
        ≡ sign value ++ (whole ++ point fraction))
      × Split (suc d) (decimal_digits (absolute value)) whole fraction
unfolding format_token_amount with_point
format_token_amount-Split decimal_digits value d =
    let digits = decimal_digits (absolute value) in
    (_, _, refl, cut_at_point (suc d) digits (pad (suc d) digits) (pad-padding (suc d) digits))
