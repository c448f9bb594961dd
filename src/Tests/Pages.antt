-- ===== src/Tests/Pages.antt =====
-- Requests for transfers, with encoders that undo each other.
use chain_watch.Prelude.{ℕ, ◌+◌, true, nat_eq, Option, none, some, List, [], ◌∷◌, pos}
use chain_watch.Errors.{ok}
use chain_watch.Api.{TransferCursor, QueryValues, Conversions}
use chain_watch.Metadata.Amount.{Text}
use chain_watch.Store.Reader.{TransferPage}
use chain_watch.Server.{HttpServer, Serving}
use chain_watch.Tests.Codec.{encode, decode}

abbrev unmarshal : List ℕ → Option TransferCursor
unmarshal (b ∷ i ∷ []) = some (record { block_number = b; log_index = i })
unmarshal _ = none

abbrev conversions : Conversions
conversions = record {
  parse_uint = λ s. some 25;
  atoi = λ s. some (pos 25);
  is_hex_address = λ s. true;
  hex_address = λ s. s;
  json_marshal = λ cursor. some (cursor.block_number ∷ cursor.log_index ∷ []);
  json_unmarshal = unmarshal;
  base64_encode = encode;
  base64_decode = λ s. decode 0 s;
}

abbrev digits : ℕ → Text
digits n = (48 + n) ∷ []

abbrev one_page : TransferPage
one_page = record {
  transfers =
      record {
        block_number = 5;
        block_hash = "b5";
        transaction_hash = "t5";
        log_index = 0;
        token = "token";
        from = "ann";
        to = "bob";
        value = some (pos 7);
      }
      ∷ [];
  next_cursor = some (record { block_number = 5; log_index = 0 });
}

abbrev server : HttpServer Unit
server = record { list_transfers = λ query w. (ok one_page, w); token_metadata_provider = none }

abbrev values : QueryValues
values = record { block = ""; raw_token = ""; raw_address = ""; raw_limit = ""; raw_cursor = "" }

abbrev serving : Serving Unit
serving = record { outside = tt; token_metadata_errors = 0 }
