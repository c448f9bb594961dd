-- ===== src/Store/Tokens.antt =====
-- internal/store/postgres_token_metadata.go. `strings.ToLower` is a parameter.
pub mod RoundTrip
use chain_watch.Prelude.{
  ℕ, String, Bool, true, false, Option, none, some, string_eq, ltb, lookup, insert, if◌then◌else◌,
}
use chain_watch.Errors.{GoError, Result, ok, err, text, wrapped, is, no_rows, database}
use chain_watch.Effects.{Action, wrapping, classifying}
use chain_watch.Domain.{Address}
use chain_watch.Metadata.{TokenMetadata}
use chain_watch.Store.{MetadataRow, Tables, Database, statement}
use chain_watch.Store.Checkpoint.{scan_row, reading}

-- CHECK (decimals >= 0 AND decimals <= 255).
unfoldable pub upsert_metadata : String → MetadataRow → Tables → Result (Unit {0}) × Tables
upsert_metadata key row t =
    if ltb 255 row.decimals
    then (err (text "violates check constraint"), t)
    else (ok tt, record t { token_metadata = insert key row t.token_metadata })

-- Behind the query of LoadTokenMetadata.
unfoldable pub metadata_found : Address → Result MetadataRow → Result (Option TokenMetadata)
metadata_found address (err e) =
    if is e no_rows then ok none else err (wrapped "failed to load token metadata" e)
metadata_found address (ok row) =
    if ltb 255 row.decimals
    then err (text "invalid token decimals %d")
    else ok (
        some (record {
          address = address;
          name = row.name;
          symbol = row.symbol;
          decimals = row.decimals;
        }))

module _ (fault : ℕ → GoError) (to_lower : String → String) where
  unfoldable pub load_token_metadata : Address → Action Database (Option TokenMetadata)
  load_token_metadata address = classifying database "load token metadata" λ d.
      reading (metadata_found address)
        (statement fault (λ t. scan_row (lookup (to_lower address) t.token_metadata) t) d)

  unfoldable pub save_token_metadata : TokenMetadata → Action Database (Unit {0})
  save_token_metadata m = classifying database "save token metadata" (
      wrapping "failed to save token metadata" (
        statement fault (
          upsert_metadata (to_lower m.address)
            (record { name = m.name; symbol = m.symbol; decimals = m.decimals }))))
