-- ===== src/Api.antt =====
-- internal/api: the query of a transfer request (http_server.go), its cursor (transfer_cursor.go), and
-- what an error shows (public_error.go, http_server.go). The standard library's and go-ethereum's
-- conversions are parameters.
pub mod Query
pub mod Replies
use chain_watch.Prelude.{
  ℕ, zero, suc, String, Bool, true, false, ◌&&◌, Option, none, some, List, ◌==◌, nat_eq, string_eq,
  ltb, ℤ, pos, negsuc, if◌then◌else◌,
}
use chain_watch.Errors.{
  Sentinel, GoError, text, sentinel, wrapped, domain_error, public_error, joined, is, Result, ok,
  err, new_domain_error, bad_input, invalid_token_address, invalid_transfer_cursor, not_found,
  temporary_dependency,
}
use chain_watch.Effects.{Action, pure, give, ◌>>=◌}
use chain_watch.Domain.{Address}

pub record TransferCursor : Type 0 where
  pub block_number : ℕ
  pub log_index : ℕ

pub record TransferQuery : Type 0 where
  pub block_number : Option ℕ
  pub token : Option Address
  pub address : Option Address
  pub limit : ℕ
  pub cursor : Option TransferCursor

-- `r.URL.Query()`: what `Get` gives for each name, the empty text where it is missing.
pub record QueryValues : Type 0 where
  pub block : String
  pub raw_token : String
  pub raw_address : String
  pub raw_limit : String
  pub raw_cursor : String

-- strconv, common.Address, encoding/json and encoding/base64.
pub record Conversions : Type 0 where
  pub parse_uint : String → Option ℕ
  pub atoi : String → Option ℤ
  pub is_hex_address : String → Bool
  pub hex_address : String → Address
  pub json_marshal : TransferCursor → Option (List ℕ)
  pub json_unmarshal : List ℕ → Option TransferCursor
  pub base64_encode : List ℕ → String
  pub base64_decode : String → Option (List ℕ)

unfoldable pub new_bad_input_error : String → GoError → GoError
new_bad_input_error message cause =
    public_error 400 message (new_domain_error bad_input "validate API input" cause)

module _ (c : Conversions) where
  abbrev pub encoding : Option (List ℕ) → Result String
  encoding none = err (wrapped "failed to encode transfer cursor" (text "json"))
  encoding (some bytes) = ok (c.base64_encode bytes)

  unfoldable pub encode_transfer_cursor : TransferCursor → Result String
  encode_transfer_cursor cursor = encoding (c.json_marshal cursor)

  abbrev pub unmarshalled : Option TransferCursor → Result TransferCursor
  unmarshalled none = err (sentinel invalid_transfer_cursor)
  unmarshalled (some cursor) = ok cursor

  abbrev pub unpacked : Option (List ℕ) → Result TransferCursor
  unpacked none = err (sentinel invalid_transfer_cursor)
  unpacked (some bytes) = unmarshalled (c.json_unmarshal bytes)

  unfoldable pub decode_transfer_cursor : String → Result TransferCursor
  decode_transfer_cursor value =
      if value == ""
      then err (sentinel invalid_transfer_cursor)
      else unpacked (c.base64_decode value)

  -- The five parts of parseTransferQuery.
  abbrev pub number_or_refused : Option ℕ → Result (Option ℕ)
  number_or_refused none = err (new_bad_input_error "invalid block" (text "strconv"))
  number_or_refused (some n) = ok (some n)

  unfoldable pub parse_block : String → Result (Option ℕ)
  parse_block raw = if raw == "" then ok none else number_or_refused (c.parse_uint raw)

  unfoldable pub parse_address : String → String → Result (Option Address)
  parse_address message raw =
      if raw == ""
      then ok none
      else if c.is_hex_address raw
      then ok (some (c.hex_address raw))
      else err (new_bad_input_error message (sentinel invalid_token_address))

  abbrev pub not_positive_limit : Result ℕ
  not_positive_limit =
      err (new_bad_input_error "invalid limit" (text "limit must be a positive integer"))

  abbrev pub limit_or_refused : Option ℤ → Result ℕ
  limit_or_refused none = not_positive_limit
  limit_or_refused (some (negsuc n)) = not_positive_limit
  limit_or_refused (some (pos n)) =
      if n == 0
      then not_positive_limit
      else if ltb 1000 n
      then err (new_bad_input_error "limit cannot exceed 1000" (text "limit exceeds maximum"))
      else ok n

  unfoldable pub parse_limit : String → Result ℕ
  parse_limit raw = if raw == "" then ok 100 else limit_or_refused (c.atoi raw)

  abbrev pub cursor_or_refused : Result TransferCursor → Result (Option TransferCursor)
  cursor_or_refused (err e) = err (new_bad_input_error "invalid transfer cursor" e)
  cursor_or_refused (ok cursor) = ok (some cursor)

  unfoldable pub parse_cursor : String → Result (Option TransferCursor)
  parse_cursor raw = if raw == "" then ok none else cursor_or_refused (decode_transfer_cursor raw)

  unfoldable pub parse_transfer_query : QueryValues → Action Unit TransferQuery
  parse_transfer_query values = do
    block_number ← give (parse_block values.block)
    token ← give (parse_address "invalid token address" values.raw_token)
    address ← give (parse_address "invalid transfer address" values.raw_address)
    limit ← give (parse_limit values.raw_limit)
    cursor ← give (parse_cursor values.raw_cursor)
    pure (record {
      block_number = block_number;
      token = token;
      address = address;
      limit = limit;
      cursor = cursor;
    })

-- `errors.As` for `*PublicError`.
unfoldable pub as_public_error : GoError → Option (ℕ × String)
as_public_error (public_error status message cause) = some (status, message)
as_public_error (wrapped message cause) = as_public_error cause
as_public_error (domain_error category operation cause) =
    let first = as_public_error category in
    let second = as_public_error cause in elim first [ none ↦ second | some p ↦ some p ]
as_public_error (joined a b) =
    let first = as_public_error a in
    let second = as_public_error b in elim first [ none ↦ second | some p ↦ some p ]
as_public_error _ = none

-- What writeHTTPError writes.
pub record ErrorReply : Type 0 where
  pub status : ℕ
  pub code : String
  pub message : String

abbrev pub public_or : GoError → Option (ℕ × String) → ErrorReply
public_or e (some (status, message)) = record {
  status = status;
  code = if status == 400 then "bad_request" else "internal_error";
  message = message;
}
public_or e none =
    if is e not_found
    then record { status = 404; code = "not_found"; message = "resource not found" }
    else if is e temporary_dependency
    then record {
      status = 503;
      code = "service_unavailable";
      message = "service temporarily unavailable";
    }
    else record { status = 500; code = "internal_error"; message = "internal server error" }

unfoldable pub error_reply : GoError → ErrorReply
error_reply e = public_or e (as_public_error e)
