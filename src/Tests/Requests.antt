-- ===== src/Tests/Requests.antt =====
-- Requests at concrete inputs.
use chain_watch.Prelude.{◌≤◌, none, some, [], ◌∷◌, pos, true}
use chain_watch.Effects.Ends.{Ends}
use chain_watch.Api.{QueryValues, Conversions, parse_transfer_query}
use chain_watch.Api.Query.{parse_transfer_query-Ends}
use chain_watch.Api.Replies.{BadRequest, parse_transfer_query-BadRequest}

-- Conversions that read every number as 25.
abbrev conversions : Conversions
conversions = record {
  parse_uint = λ s. some 25;
  atoi = λ s. some (pos 25);
  is_hex_address = λ s. true;
  hex_address = λ s. s;
  json_marshal = λ cursor. some (1 ∷ []);
  json_unmarshal = λ bytes. none;
  base64_encode = λ bytes. "MQ";
  base64_decode = λ s. some (1 ∷ []);
}

abbrev values : QueryValues
values = record {
  block = "25";
  raw_token = "";
  raw_address = "0xa0";
  raw_limit = "25";
  raw_cursor = "";
}

abbrev bad_cursor : QueryValues
bad_cursor = record values { raw_cursor = "MQ" }

parse_transfer_query-Ends_example :
    Ends
      (λ query after. (1 ≤ query.limit) × (query.limit ≤ 1000))
      (λ after. Unit)
      (parse_transfer_query conversions values tt)
parse_transfer_query-Ends_example = parse_transfer_query-Ends conversions values

parse_transfer_query-BadRequest_example :
    BadRequest (parse_transfer_query conversions bad_cursor tt).0
parse_transfer_query-BadRequest_example = parse_transfer_query-BadRequest conversions bad_cursor
