-- ===== src/Server.antt =====
-- The handlers of internal/api/http_server.go with internal/api/api_transfer.go. A request is its method
-- and its query, a reply the value that is written as JSON, with its status.
pub mod Cursors
pub mod Replying
use chain_watch.Prelude.{
  ℕ, ◌+◌, String, Bool, true, false, Option, none, some, List, [], ◌∷◌, ◌++◌, ℤ, if◌then◌else◌,
}
use chain_watch.Errors.{GoError, Result, ok, err}
use chain_watch.Effects.{Action}
use chain_watch.Domain.{Address, BlockHash, TransactionHash, u64}
use chain_watch.Metadata.{TokenMetadata}
use chain_watch.Metadata.Amount.{Text, absolute, sign, format_token_amount}
use chain_watch.Api.{
  TransferCursor, TransferQuery, QueryValues, Conversions, ErrorReply, encode_transfer_cursor,
  parse_transfer_query, error_reply,
}
use chain_watch.Store.Reader.{StoredErc20Transfer, TransferPage}

pub record ApiTokenMetadata : Type 0 where
  pub name : String
  pub symbol : String
  pub decimals : ℕ

pub record ApiTransfer : Type 0 where
  pub block_number : ℕ
  pub block_hash : BlockHash
  pub transaction_hash : TransactionHash
  pub log_index : ℕ
  pub token : Address
  pub from : Address
  pub to : Address
  pub value : Text
  pub formatted_value : Option Text
  pub token_metadata : Option ApiTokenMetadata

pub record ApiPagination : Type 0 where
  pub limit : ℕ
  pub has_more : Bool
  pub next_cursor : Option String

-- `transfers` is the field `data`.
pub record ApiTransferPage : Type 0 where
  pub transfers : List ApiTransfer
  pub pagination : ApiPagination

-- `healthy` is `{"status": "ok"}`.
pub data Reply : Type 0 where
  healthy : Reply
  page_reply : ApiTransferPage → Reply
  failure : ErrorReply → Reply

-- The reader, and the provider of metadata, which may be nil.
pub record HttpServer (W : Type 0) : Type 0 where
  pub list_transfers : TransferQuery → Action W TransferPage
  pub token_metadata_provider : Option (Address → Action W TokenMetadata)

-- The world outside, and the counter that the handler increments.
pub record Serving (W : Type 0) : Type 0 where
  pub outside : W
  pub token_metadata_errors : ℕ

unfoldable pub method_not_allowed : Reply
method_not_allowed =
    failure (record { status = 405; code = "method_not_allowed"; message = "method not allowed" })

unfoldable pub handle_health : Bool → Reply
handle_health is_get = if is_get then healthy else method_not_allowed

module _ (digits : ℕ → Text) where
  -- `Value.String()`, or "0" for nil.
  abbrev pub value_of : Option ℤ → Text
  value_of none = 48 ∷ []
  value_of (some v) = sign v ++ digits (absolute v)

  unfoldable pub api_transfer : StoredErc20Transfer → ApiTransfer
  api_transfer t = record {
    block_number = t.block_number;
    block_hash = t.block_hash;
    transaction_hash = t.transaction_hash;
    log_index = t.log_index;
    token = t.token;
    from = t.from;
    to = t.to;
    value = value_of t.value;
    formatted_value = none;
    token_metadata = none;
  }

  unfoldable pub enrich : ApiTransfer → StoredErc20Transfer → TokenMetadata → ApiTransfer
  enrich a t m = record a {
    formatted_value = some (format_token_amount digits t.value m.decimals);
    token_metadata = some (record { name = m.name; symbol = m.symbol; decimals = m.decimals });
  }

  module _ {W : Type 0} (conversions : Conversions) (server : HttpServer W) where
    -- A transfer behind the answer of the provider; an error is only counted.
    abbrev pub with_metadata :
        StoredErc20Transfer → ℕ → Result TokenMetadata × W → ApiTransfer × Serving W
    with_metadata t errors (err e, w) =
        (api_transfer t, record { outside = w; token_metadata_errors = u64 (errors + 1) })
    with_metadata t errors (ok m, w) =
        (enrich (api_transfer t) t m, record { outside = w; token_metadata_errors = errors })

    abbrev pub ask :
        Option (Address → Action W TokenMetadata)
        → StoredErc20Transfer
        → Serving W
        → ApiTransfer × Serving W
    ask none t s = (api_transfer t, s)
    ask (some get) t s = with_metadata t s.token_metadata_errors (get t.token s.outside)

    -- The loop over the page.
    unfoldable pub render : List StoredErc20Transfer → Serving W → List ApiTransfer × Serving W
    render [] s = ([], s)
    render (t ∷ ts) s =
        let (a, after) = ask server.token_metadata_provider t s in
        let (rest, end) = render ts after in (a ∷ rest, end)

    abbrev pub next_cursor : Option TransferCursor → Result (Option String)
    next_cursor none = ok none
    next_cursor (some c) = elim (encode_transfer_cursor conversions c) [
      | ok value ↦ ok (some value)
      | err e ↦ err e
    ]

    abbrev pub has_more : Option TransferCursor → Bool
    has_more none = false
    has_more (some c) = true

    -- The end of the handler.
    abbrev pub reply_with :
        TransferQuery → TransferPage → List ApiTransfer → Result (Option String) → Reply
    reply_with query page transfers (err e) = failure (error_reply e)
    reply_with query page transfers (ok cursor) = page_reply (record {
      transfers = transfers;
      pagination = record {
        limit = query.limit;
        has_more = has_more page.next_cursor;
        next_cursor = cursor;
      };
    })

    unfoldable pub reply_page : TransferQuery → TransferPage → Serving W → Reply × Serving W
    reply_page query page s =
        let (transfers, after) = render page.transfers s in
        (reply_with query page transfers (next_cursor page.next_cursor), after)

    abbrev pub listed : TransferQuery → ℕ → Result TransferPage × W → Reply × Serving W
    listed query errors (err e, w) =
        (failure (error_reply e), record { outside = w; token_metadata_errors = errors })
    listed query errors (ok page, w) =
        reply_page query page (record { outside = w; token_metadata_errors = errors })

    abbrev pub parsed : Serving W → Result TransferQuery → Reply × Serving W
    parsed s (err e) = (failure (error_reply e), s)
    parsed s (ok query) =
        listed query s.token_metadata_errors (server.list_transfers query s.outside)

    -- `is_get` is whether the method is GET.
    unfoldable pub handle_transfers : Bool → QueryValues → Serving W → Reply × Serving W
    handle_transfers is_get values s =
        if is_get
        then parsed s (parse_transfer_query conversions values tt).0
        else (method_not_allowed, s)
