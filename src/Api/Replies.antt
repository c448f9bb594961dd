-- ===== src/Api/Replies.antt =====
-- What a client sees of an error.
use chain_watch.Prelude.{
  ℕ, ◌≡◌, refl, String, Option, none, some, ◌==◌, string_eq, nat_eq, ltb, ℤ, pos, negsuc,
  Bool-cases, inl, inr,
}
use chain_watch.Errors.{GoError, Result, ok, err}
use chain_watch.Effects.{Action, pure, give, ◌>>=◌}
use chain_watch.Api.{
  QueryValues, Conversions, new_bad_input_error, error_reply, as_public_error, parse_block,
  parse_address, parse_limit, parse_cursor, parse_transfer_query, number_or_refused,
  limit_or_refused, cursor_or_refused, decode_transfer_cursor,
}

-- An error of bad input: its reply says so.
unfoldable pub BadRequest : {A : Type 0} → Result A → Type 0
BadRequest r = (e : GoError) → r ≡ err e → (error_reply e).status ≡ 400

bad :
    (A : Type 0) (message : String) (cause : GoError)
    → BadRequest {A = A} (err (new_bad_input_error message cause))
unfolding BadRequest new_bad_input_error error_reply as_public_error
bad A message cause e at = rw (← same at) refl
  where
    same : {x y : GoError} → ◌≡◌ {A = Result A} (err x) (err y) → x ≡ y
    same h = cc

fine : {A : Type 0} (a : A) → BadRequest (ok a)
unfolding BadRequest
fine a e at = cc

module _ (c : Conversions) where
  parse_block-BadRequest : (raw : String) → BadRequest (parse_block c raw)
  unfolding parse_block
  parse_block-BadRequest raw = elim (Bool-cases (raw == "")) [
    | inl missing ↦ rw missing (fine none)
    | inr given ↦ rw given (parsed (c.parse_uint raw))
  ]
    where
      parsed : (n : Option ℕ) → BadRequest (number_or_refused c n)
      parsed none = bad _ _ _
      parsed (some n) = fine (some n)

  parse_address-BadRequest : (message raw : String) → BadRequest (parse_address c message raw)
  unfolding parse_address
  parse_address-BadRequest message raw = elim (Bool-cases (raw == "")) [
    | inl missing ↦ rw missing (fine none)
    | inr given ↦ elim (Bool-cases (c.is_hex_address raw)) [
      | inl hex ↦ rw (given, hex) (fine _)
      | inr not_hex ↦ rw (given, not_hex) (bad _ _ _)
    ]
  ]

  parse_limit-BadRequest : (raw : String) → BadRequest (parse_limit c raw)
  unfolding parse_limit
  parse_limit-BadRequest raw = elim (Bool-cases (raw == "")) [
    | inl missing ↦ rw missing (fine 100)
    | inr given ↦ rw given (parsed (c.atoi raw))
  ]
    where
      parsed : (z : Option ℤ) → BadRequest (limit_or_refused c z)
      parsed none = bad _ _ _
      parsed (some (negsuc n)) = bad _ _ _
      parsed (some (pos n)) = elim (Bool-cases (n == 0)) [
        | inl zero_limit ↦ rw zero_limit (bad _ _ _)
        | inr some_limit ↦ elim (Bool-cases (ltb 1000 n)) [
          | inl over ↦ rw (some_limit, over) (bad _ _ _)
          | inr within ↦ rw (some_limit, within) (fine n)
        ]
      ]

  parse_cursor-BadRequest : (raw : String) → BadRequest (parse_cursor c raw)
  unfolding parse_cursor
  parse_cursor-BadRequest raw = elim (Bool-cases (raw == "")) [
    | inl missing ↦ rw missing (fine none)
    | inr given ↦ rw given (parsed (decode_transfer_cursor c raw))
  ]
    where
      parsed : (r : Result _) → BadRequest (cursor_or_refused c r)
      parsed (err e) = bad _ _ _
      parsed (ok cursor) = fine (some cursor)

  bind-BadRequest :
      {A B : Type 0} (r : Result A) (f : A → Action Unit B)
      → BadRequest r
      → ((a : A) → BadRequest (f a tt).0)
      → BadRequest ((give r >>= f) tt).0
  unfolding ◌>>=◌ BadRequest
  bind-BadRequest (ok a) f h next = next a
  bind-BadRequest (err e) f h next = λ x at. h x (same at)
    where
      same :
          {A B : Type 0} {x y : GoError}
          → ◌≡◌ {A = Result A} (err x) (err y)
          → ◌≡◌ {A = Result B} (err x) (err y)
      same h = cc

  pure_fine : {A : Type 0} (a : A) → BadRequest (pure {W = Unit} a tt).0
  unfolding ◌>>=◌
  pure_fine a = fine a

  -- Whatever the conversions do, the error of a query that is refused is shown as a bad request.
  pub parse_transfer_query-BadRequest :
      (values : QueryValues) → BadRequest (parse_transfer_query c values tt).0
  unfolding parse_transfer_query
  parse_transfer_query-BadRequest values =
      bind-BadRequest _ _ (parse_block-BadRequest values.block) λ b.
        bind-BadRequest _ _ (parse_address-BadRequest _ values.raw_token) λ t.
          bind-BadRequest _ _ (parse_address-BadRequest _ values.raw_address) λ a.
            bind-BadRequest _ _ (parse_limit-BadRequest values.raw_limit)
              λ n. bind-BadRequest _ _ (parse_cursor-BadRequest values.raw_cursor) λ k. pure_fine _
