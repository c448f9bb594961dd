-- ===== src/Server/Cursors.antt =====
-- The cursor of a reply in the query that asks for the next page.
use chain_watch.Prelude.{
  ℕ, ◌≡◌, refl, ap, String, false, Option, none, some, ◌==◌, string_eq, Bool-cases, inl, inr,
}
use chain_watch.Errors.{Result, ok, err}
use chain_watch.Effects.{Action, give, pure, ◌>>=◌}
use chain_watch.Domain.{Address}
use chain_watch.Api.{
  TransferCursor, TransferQuery, QueryValues, Conversions, encode_transfer_cursor,
  decode_transfer_cursor, parse_block, parse_address, parse_limit, parse_cursor, cursor_or_refused,
  parse_transfer_query,
}
use chain_watch.Api.Query.{Inverse, decode-encode_transfer_cursor}
use chain_watch.Server.{parsed}

-- The five parts of a query, put together.
abbrev chained :
    Result (Option ℕ)
    → Result (Option Address)
    → Result (Option Address)
    → Result ℕ
    → Result (Option TransferCursor)
    → Action Unit TransferQuery
chained b t a l k = do
  block_number ← give b
  token ← give t
  address ← give a
  limit ← give l
  cursor ← give k
  pure (record {
    block_number = block_number;
    token = token;
    address = address;
    limit = limit;
    cursor = cursor;
  })

rechained :
    (b : Result (Option ℕ)) (t a : Result (Option Address)) (l : Result ℕ)
    (k : Result (Option TransferCursor)) (query : TransferQuery) (cursor : Option TransferCursor)
    → (chained b t a l k tt).0 ≡ ok query
    → (chained b t a l (ok cursor) tt).0 ≡ ok (record query { cursor = cursor })
unfolding ◌>>=◌
rechained (err e) t a l k query cursor h = cc
rechained (ok b) (err e) a l k query cursor h = cc
rechained (ok b) (ok t) (err e) l k query cursor h = cc
rechained (ok b) (ok t) (ok a) (err e) k query cursor h = cc
rechained (ok b) (ok t) (ok a) (ok l) (err e) query cursor h = cc
rechained (ok b) (ok t) (ok a) (ok l) (ok k) query cursor h =
    let same : ◌≡◌ {A = TransferQuery}
        (record { block_number = b; token = t; address = a; limit = l; cursor = k }) query =
      cc in
    ap (λ (q : TransferQuery). ok (record q { cursor = cursor })) same

pub parse_cursor-blank : (c : Conversions) → parse_cursor c "" ≡ ok none
unfolding parse_cursor
parse_cursor-blank c = refl

not_blank :
    (c : Conversions) (value : String) (cursor : TransferCursor)
    → decode_transfer_cursor c value ≡ ok cursor
    → (value == "") ≡ false
unfolding decode_transfer_cursor
not_blank c value cursor h = elim (Bool-cases (value == "")) [
  | inl blank ↦ cc (rw blank at h)
  | inr fine ↦ fine
]

module _ (conversions : Conversions) where
  pub parse_cursor-encoded :
      (cursor : TransferCursor) (value : String)
      → Inverse conversions
      → encode_transfer_cursor conversions cursor ≡ ok value
      → parse_cursor conversions value ≡ ok (some cursor)
  unfolding parse_cursor
  parse_cursor-encoded cursor value laws encoded =
      let decoded = decode-encode_transfer_cursor conversions cursor value laws encoded in
      rw (not_blank conversions value cursor decoded) (ap (cursor_or_refused conversions) decoded)

  -- Another cursor in a query that is parsed.
  pub parse-asks_next :
      (values : QueryValues) (query : TransferQuery) (raw : String) (cursor : Option TransferCursor)
      → (parse_transfer_query conversions values tt).0 ≡ ok query
      → parse_cursor conversions raw ≡ ok cursor
      → (parse_transfer_query conversions (record values { raw_cursor = raw }) tt).0
        ≡ ok (record query { cursor = cursor })
  unfolding parse_transfer_query
  parse-asks_next values query raw cursor parsed at = rw at (
      rechained (parse_block conversions values.block)
        (parse_address conversions "invalid token address" values.raw_token)
        (parse_address conversions "invalid transfer address" values.raw_address)
        (parse_limit conversions values.raw_limit) (parse_cursor conversions values.raw_cursor)
        query cursor parsed)
