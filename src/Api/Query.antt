-- ===== src/Api/Query.antt =====
-- Queries and cursors.
use chain_watch.Prelude.{
  ℕ, ◌≤◌, ◌≡◌, refl, ap, String, Option, none, some, List, ◌==◌, nat_eq, string_eq, ltb, ℤ, pos,
  negsuc, Bool-cases, inl, inr, beq_eq, arith,
}
use chain_watch.Errors.{GoError, Result, ok, err}
use chain_watch.Effects.Ends.{Ends, Ends-bind, Ends-give, Ends-pure}
use chain_watch.Api.{
  encoding, TransferCursor, QueryValues, Conversions, encode_transfer_cursor,
  decode_transfer_cursor, unmarshalled, parse_limit, parse_transfer_query, limit_or_refused,
}

-- What the encoders promise each other.
pub record Inverse (c : Conversions) : Type 0 where
  pub json_round :
      (cursor : TransferCursor) (bytes : List ℕ)
      → c.json_marshal cursor ≡ some bytes
      → c.json_unmarshal bytes ≡ some cursor
  pub base64_round : (bytes : List ℕ) → c.base64_decode (c.base64_encode bytes) ≡ some bytes
  pub base64_empty : (bytes : List ℕ) → c.base64_encode bytes ≡ "" → c.json_unmarshal bytes ≡ none

module _ (c : Conversions) where
  -- A cursor that is encoded is decoded to itself, where base64 and JSON decode what they encode, and
  -- only data that is no cursor encodes to the empty text.
  pub decode-encode_transfer_cursor :
      (cursor : TransferCursor) (value : String)
      → Inverse c
      → encode_transfer_cursor c cursor ≡ ok value
      → decode_transfer_cursor c value ≡ ok cursor
  unfolding encode_transfer_cursor decode_transfer_cursor
  decode-encode_transfer_cursor cursor value laws encoded =
      packed (c.json_marshal cursor) refl encoded
    where
      same_text : {a b : String} → ◌≡◌ {A = Result String} (ok a) (ok b) → a ≡ b
      same_text e = cc

      packed :
          (marshalled : Option (List ℕ))
          → c.json_marshal cursor ≡ marshalled
          → encoding c marshalled ≡ ok value
          → decode_transfer_cursor c value ≡ ok cursor
      packed none at done = cc
      packed (some bytes) at done = elim (Bool-cases (c.base64_encode bytes == "")) [
        | inl empty ↦
            cc (laws.base64_empty bytes (beq_eq _ "" empty), laws.json_round cursor bytes at)
        | inr fine ↦ rw (← same_text done) (
            rw (fine, laws.base64_round bytes)
              (ap (unmarshalled c) (laws.json_round cursor bytes at)))
      ]

  limit_or_refused-bounds :
      (n m : ℕ) → limit_or_refused c (some (pos m)) ≡ ok n → (1 ≤ n) × (n ≤ 1000)
  limit_or_refused-bounds n m accepted = elim (Bool-cases (m == 0)) [
    | inl zero_limit ↦ absurd (refused_not_ok (rw zero_limit at accepted))
    | inr some_limit ↦ elim (Bool-cases (ltb 1000 m)) [
      | inl over ↦ absurd (refused_not_ok (rw (some_limit, over) at accepted))
      | inr within ↦
          let same : m ≡ n = ok_eq (rw (some_limit, within) at accepted) in
          (ground (arith, same), ground (arith, same))
    ]
  ]
    where
      refused_not_ok : {e : GoError} {k : ℕ} → ◌≡◌ {A = Result ℕ} (err e) (ok k) → ⊥
      refused_not_ok h = cc

      ok_eq : {a b : ℕ} → ◌≡◌ {A = Result ℕ} (ok a) (ok b) → a ≡ b
      ok_eq e = cc

  parse_limit-bounds : (raw : String) (n : ℕ) → parse_limit c raw ≡ ok n → (1 ≤ n) × (n ≤ 1000)
  unfolding parse_limit
  parse_limit-bounds raw n accepted = elim (Bool-cases (raw == "")) [
    | inl missing ↦
        let same : 100 ≡ n = hundred (rw missing at accepted) in
        (omega (arith, same), omega (arith, same))
    | inr given ↦ parsed (c.atoi raw) (rw given at accepted)
  ]
    where
      hundred : {a b : ℕ} → ◌≡◌ {A = Result ℕ} (ok a) (ok b) → a ≡ b
      hundred e = cc

      parsed : (z : Option ℤ) → limit_or_refused c z ≡ ok n → (1 ≤ n) × (n ≤ 1000)
      parsed none h = cc
      parsed (some (negsuc m)) h = cc
      parsed (some (pos m)) h = limit_or_refused-bounds n m h

  -- A query that is accepted asks for 1 to 1000 transfers, whatever the conversions do.
  pub parse_transfer_query-Ends :
      (values : QueryValues)
      → Ends
          (λ query after. (1 ≤ query.limit) × (query.limit ≤ 1000))
          (λ after. Unit)
          (parse_transfer_query c values tt)
  unfolding parse_transfer_query
  parse_transfer_query-Ends values =
      Ends-bind (λ _ _. Unit) _ _ tt (Ends-give _ tt (λ a h. tt) tt)
        λ b _ _.
          Ends-bind (λ _ _. Unit) _ _ tt (Ends-give _ tt (λ a h. tt) tt)
            λ t _ _.
              Ends-bind (λ _ _. Unit) _ _ tt (Ends-give _ tt (λ a h. tt) tt)
                λ a _ _.
                  Ends-bind (λ n _. (1 ≤ n) × (n ≤ 1000)) _ _ tt
                    (Ends-give _ tt (λ n h. parse_limit-bounds values.raw_limit n h) tt)
                    λ n _ bounds.
                      Ends-bind (λ _ _. Unit) _ _ tt (Ends-give _ tt (λ a h. tt) tt)
                        λ k _ _. Ends-pure _ tt bounds
