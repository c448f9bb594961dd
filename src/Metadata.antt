-- ===== src/Metadata.antt =====
-- internal/metadata/token_metadata_service.go: token metadata through a cache, a store and the chain.
-- `strings.ToLower` is a parameter. Each lock of the cache covers one access, and a call is one step.
pub mod Cache
pub mod Amount
use chain_watch.Prelude.{ℕ, String, Option, none, some, List, [], ◌==◌, string_eq, lookup, insert}
use chain_watch.Errors.{Sentinel, metadata, GoError, Result, ok, err, new_domain_error}
use chain_watch.Effects.{Action}
use chain_watch.Domain.{Address}

pub record TokenMetadata : Type 0 where
  pub address : Address
  pub name : String
  pub symbol : String
  pub decimals : ℕ

-- `TokenMetadataFetcher` and `TokenMetadataStore`.
pub record MetadataSources (W : Type 0) : Type 0 where
  pub fetch_token_metadata : Address → Action W TokenMetadata
  pub load_token_metadata : Address → Action W (Option TokenMetadata)
  pub save_token_metadata : TokenMetadata → Action W (Unit {0})

pub record TokenMetadataService (W : Type 0) : Type 0 where
  pub cache : List (String × TokenMetadata)
  pub outside : W

unfoldable pub new_token_metadata_service : {W : Type 0} → W → TokenMetadataService W
new_token_metadata_service w = record { cache = []; outside = w }

module _ {W : Type 0} (to_lower : String → String) (sources : MetadataSources W) where
  unfoldable pub cache_metadata :
      String → TokenMetadata → TokenMetadataService W → TokenMetadataService W
  cache_metadata key m s = record s { cache = insert key m s.cache }

  abbrev pub moved : W → TokenMetadataService W → TokenMetadataService W
  moved w s = record s { outside = w }

  -- Behind SaveTokenMetadata.
  unfoldable pub saved :
      String
      → TokenMetadata
      → TokenMetadataService W
      → Result (Unit {0}) × W
      → Result TokenMetadata × TokenMetadataService W
  saved key m s (err e, w) = (err (new_domain_error metadata "persist token metadata" e), moved w s)
  saved key m s (ok u, w) = (ok m, cache_metadata key m (moved w s))

  -- Behind FetchTokenMetadata.
  unfoldable pub fetched :
      String
      → TokenMetadataService W
      → Result TokenMetadata × W
      → Result TokenMetadata × TokenMetadataService W
  fetched key s (err e, w) = (err (new_domain_error metadata "fetch token metadata" e), moved w s)
  fetched key s (ok m, w) = saved key m s (sources.save_token_metadata m w)

  -- Behind LoadTokenMetadata.
  unfoldable pub loaded :
      String
      → Address
      → TokenMetadataService W
      → Result (Option TokenMetadata) × W
      → Result TokenMetadata × TokenMetadataService W
  loaded key address s (err e, w) =
      (err (new_domain_error metadata "load cached token metadata" e), moved w s)
  loaded key address s (ok (some m), w) = (ok m, cache_metadata key m (moved w s))
  loaded key address s (ok none, w) = fetched key s (sources.fetch_token_metadata address w)

  unfoldable pub cached :
      String
      → Address
      → TokenMetadataService W
      → Option TokenMetadata
      → Result TokenMetadata × TokenMetadataService W
  cached key address s (some m) = (ok m, s)
  cached key address s none = loaded key address s (sources.load_token_metadata address s.outside)

  unfoldable pub get_token_metadata : Address → Action (TokenMetadataService W) TokenMetadata
  get_token_metadata address s =
      cached (to_lower address) address s (lookup (to_lower address) s.cache)
