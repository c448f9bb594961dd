-- ===== src/Server/Replying.antt =====
-- What a request for transfers is answered.
use chain_watch.Prelude.{
  ℕ, ◌≡◌, ◌≢◌, ◌↔◌, String, Bool, true, false, Option, none, some, map, string_eq,
}
use chain_watch.Errors.{GoError, ok, err}
use chain_watch.Metadata.Amount.{Text}
use chain_watch.Api.{
  TransferCursor, TransferQuery, QueryValues, Conversions, encode_transfer_cursor,
  parse_transfer_query, error_reply,
}
use chain_watch.Store.Reader.{TransferPage}
use chain_watch.Server.{
  ApiTransfer, ApiTransferPage, Reply, page_reply, failure, HttpServer, Serving, method_not_allowed,
  api_transfer, next_cursor,
}

-- A transfer of a reply without what the metadata adds.
abbrev pub bare : ApiTransfer → ApiTransfer
bare a = record a { formatted_value = none; token_metadata = none }

-- The query that asks for the page behind a reply.
abbrev pub asks_next : QueryValues → Option String → QueryValues
asks_next values none = record values { raw_cursor = "" }
asks_next values (some cursor) = record values { raw_cursor = cursor }

module _ (digits : ℕ → Text) {W : Type 0} (conversions : Conversions) (server : HttpServer W) where
  -- A reply for a page: its transfers in order, whether there are more, and a cursor that the next
  -- query is parsed to.
  pub record Served (values : QueryValues) (query : TransferQuery) (page : TransferPage)
      (p : ApiTransferPage) : Type 0 where
    pub transfers : map bare p.transfers ≡ map (api_transfer digits) page.transfers
    pub limit : p.pagination.limit ≡ query.limit
    pub more : (p.pagination.has_more ≡ true) ↔ (page.next_cursor ≢ none)
    pub next :
        (parse_transfer_query conversions (asks_next values p.pagination.next_cursor) tt).0
        ≡ ok (record query { cursor = page.next_cursor })

  -- The answers, by what was asked and what the reader returned.
  pub data Handled (is_get : Bool) (values : QueryValues) (s : Serving W) (reply : Reply)
      : Type 0 where
    wrong_method : is_get ≡ false → reply ≡ method_not_allowed → Handled is_get values s reply
    bad_query :
        (e : GoError)
        → is_get ≡ true
        → (parse_transfer_query conversions values tt).0 ≡ err e
        → reply ≡ failure (error_reply e)
        → Handled is_get values s reply
    unreadable :
        (query : TransferQuery) (e : GoError)
        → is_get ≡ true
        → (parse_transfer_query conversions values tt).0 ≡ ok query
        → (server.list_transfers query s.outside).0 ≡ err e
        → reply ≡ failure (error_reply e)
        → Handled is_get values s reply
    unencodable :
        (query : TransferQuery) (page : TransferPage) (cursor : TransferCursor) (e : GoError)
        → is_get ≡ true
        → (parse_transfer_query conversions values tt).0 ≡ ok query
        → (server.list_transfers query s.outside).0 ≡ ok page
        → page.next_cursor ≡ some cursor
        → encode_transfer_cursor conversions cursor ≡ err e
        → reply ≡ failure (error_reply e)
        → Handled is_get values s reply
    served :
        (query : TransferQuery) (page : TransferPage) (p : ApiTransferPage)
        → is_get ≡ true
        → (parse_transfer_query conversions values tt).0 ≡ ok query
        → (server.list_transfers query s.outside).0 ≡ ok page
        → reply ≡ page_reply p
        → Served values query page p
        → Handled is_get values s reply
