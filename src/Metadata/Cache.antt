-- ===== src/Metadata/Cache.antt =====
-- What the cache of token metadata keeps.
use chain_watch.Prelude.{
  String, ◌≡◌, ◌∙◌, refl, sym, ap, Option, none, some, lookup, string_eq, lookup-insert_self,
  Option-cases, inl, inr,
}
use chain_watch.Errors.{Result, ok, err}
use chain_watch.Effects.Ends.{Ends, Ends-ok, Ends-err}
use chain_watch.Domain.{Address}
use chain_watch.Metadata.{
  TokenMetadata, MetadataSources, TokenMetadataService, cache_metadata, saved, fetched, loaded,
  cached, get_token_metadata,
}

module _ {W : Type 0} (to_lower : String → String) (sources : MetadataSources W) where
  abbrev KeyCached : String → TokenMetadata → TokenMetadataService W → Type 0
  KeyCached key m s = lookup key s.cache ≡ some m

  saved-Ends :
      (key : String) (m : TokenMetadata) (s : TokenMetadataService W) (r : Result Unit × W)
      → Ends (KeyCached key) (λ after. after.cache ≡ s.cache) (saved to_lower sources key m s r)
  unfolding saved cache_metadata
  saved-Ends key m s (err e, w) = Ends-err _ _ refl
  saved-Ends key m s (ok u, w) = Ends-ok m _ (lookup-insert_self key m s.cache)

  fetched-Ends :
      (key : String) (s : TokenMetadataService W) (r : Result TokenMetadata × W)
      → Ends (KeyCached key) (λ after. after.cache ≡ s.cache) (fetched to_lower sources key s r)
  unfolding fetched
  fetched-Ends key s (err e, w) = Ends-err _ _ refl
  fetched-Ends key s (ok m, w) = saved-Ends key m s (sources.save_token_metadata m w)

  loaded-Ends :
      (key : String) (address : Address) (s : TokenMetadataService W)
      (r : Result (Option TokenMetadata) × W)
      → Ends
          (KeyCached key)
          (λ after. after.cache ≡ s.cache)
          (loaded to_lower sources key address s r)
  unfolding loaded cache_metadata
  loaded-Ends key address s (err e, w) = Ends-err _ _ refl
  loaded-Ends key address s (ok (some m), w) = Ends-ok m _ (lookup-insert_self key m s.cache)
  loaded-Ends key address s (ok none, w) =
      fetched-Ends key s (sources.fetch_token_metadata address w)

  -- Metadata that is returned is in the cache under the lower case of the address; a call that fails
  -- leaves the cache as it was.
  pub get_token_metadata-Ends :
      (address : Address) (s : TokenMetadataService W)
      → Ends
          (KeyCached (to_lower address))
          (λ after. after.cache ≡ s.cache)
          (get_token_metadata to_lower sources address s)
  unfolding get_token_metadata cached
  get_token_metadata-Ends address s = elim (Option-cases (lookup (to_lower address) s.cache)) [
    | inl missing ↦ rw missing (loaded-Ends (to_lower address) address s _)
    | inr (m, found) ↦ rw found (Ends-ok m s found)
  ]

  kept_by :
      (address : Address) (s after : TokenMetadataService W) (m : TokenMetadata)
      → get_token_metadata to_lower sources address s ≡ (ok m, after)
      → KeyCached (to_lower address) m after
  kept_by address s after m done =
      ap (λ r. lookup (to_lower address) r.1.cache) (sym done)
      ∙ (get_token_metadata-Ends address s).returns m (ap (λ r. r.0) done)

  -- After a call that returns metadata, a call for an address with the same lower case returns the
  -- same metadata, and asks neither the store nor the chain: it changes nothing.
  get_token_metadata_twice :
      (address other : Address) (s after : TokenMetadataService W) (m : TokenMetadata)
      → get_token_metadata to_lower sources address s ≡ (ok m, after)
      → to_lower other ≡ to_lower address
      → get_token_metadata to_lower sources other after ≡ (ok m, after)
  unfolding get_token_metadata cached
  get_token_metadata_twice address other s after m done same =
      rw (same, kept_by address s after m done) refl
