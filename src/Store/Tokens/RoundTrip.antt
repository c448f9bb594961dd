-- ===== src/Store/Tokens/RoundTrip.antt =====
-- Metadata that is saved and loaded again.
use chain_watch.Prelude.{
  ℕ, ◌≡◌, refl, String, true, false, ◌==◌, beq_refl, string_eq, Option, some, lookup, lookup-insert,
  ltb, Bool-cases, inl, inr, if◌then◌else◌,
}
use chain_watch.Errors.{GoError, is_nil, ok}
use chain_watch.Effects.{◌>>=◌}
use chain_watch.Effects.Ends.{Ends, Ends-ok, Ends-err, Ends-wrapping, Ends-classifying}
use chain_watch.Domain.{Address}
use chain_watch.Metadata.{TokenMetadata}
use chain_watch.Store.{MetadataRow, Tables, Database, statement}
use chain_watch.Store.Rules.{statement-Ends}
use chain_watch.Store.Tokens.{
  upsert_metadata, metadata_found, load_token_metadata, save_token_metadata,
}

-- One row of metadata is written, and nothing else.
pub record Kept (key : String) (m : TokenMetadata) (before after : Tables) : Type 0 where
  pub in_range : ltb 255 m.decimals ≡ false
  pub rows :
      (k : String)
      → lookup k after.token_metadata ≡ (
          if key == k
          then some (record { name = m.name; symbol = m.symbol; decimals = m.decimals })
          else lookup k before.token_metadata)
  pub same_checkpoints : after.checkpoints ≡ before.checkpoints
  pub same_blocks : after.indexed_blocks ≡ before.indexed_blocks
  pub same_transfers : after.erc20_transfers ≡ before.erc20_transfers

module _ (fault : ℕ → GoError) (to_lower : String → String) where
  upsert-Ends :
      (m : TokenMetadata) (t : Tables)
      → Ends
          (λ u after. Kept (to_lower m.address) m t after)
          (λ after. after ≡ t)
          (upsert_metadata
            (to_lower m.address)
            (record { name = m.name; symbol = m.symbol; decimals = m.decimals })
            t)
  unfolding upsert_metadata
  upsert-Ends m t = elim (Bool-cases (ltb 255 m.decimals)) [
    | inl large ↦ rw large (Ends-err _ t refl)
    | inr fits ↦ rw fits (
        Ends-ok tt _ (record {
          in_range = fits;
          rows = λ k. lookup-insert (to_lower m.address) k _ t.token_metadata;
          same_checkpoints = refl;
          same_blocks = refl;
          same_transfers = refl;
        }))
  ]

  pub save_token_metadata-Ends :
      (m : TokenMetadata) (d : Database)
      → Ends
          (λ u after. Kept (to_lower m.address) m d.tables after.tables)
          (λ after. after.tables ≡ d.tables)
          (save_token_metadata fault to_lower m d)
  unfolding save_token_metadata
  save_token_metadata-Ends m d =
      Ends-classifying _ _ _ d
        (Ends-wrapping _ _ d (statement-Ends fault _ d (upsert-Ends m d.tables) refl))

  load_found :
      (other : Address) (d : Database) (row : MetadataRow)
      → is_nil (fault d.statements) ≡ true
      → lookup (to_lower other) d.tables.token_metadata ≡ some row
      → ltb 255 row.decimals ≡ false
      → (load_token_metadata fault to_lower other d).0
        ≡ ok (
            some (record {
              address = other;
              name = row.name;
              symbol = row.symbol;
              decimals = row.decimals;
            }))
  unfolding load_token_metadata statement metadata_found ◌>>=◌
  load_found other d row working found fits = rw (working, found, fits) refl

  -- Metadata that is saved without an error is what the next load returns that is carried out, for every
  -- address with the same lower case, under the address that was asked for.
  pub load-save_token_metadata :
      (m : TokenMetadata) (other : Address) (d : Database)
      → (save_token_metadata fault to_lower m d).0 ≡ ok tt
      → is_nil (fault (save_token_metadata fault to_lower m d).1.statements) ≡ true
      → to_lower other ≡ to_lower m.address
      → (load_token_metadata fault to_lower other (save_token_metadata fault to_lower m d).1).0
        ≡ ok (some (record m { address = other }))
  load-save_token_metadata m other d saved working same =
      let kept = (save_token_metadata-Ends m d).returns tt saved in
      load_found other _ (record { name = m.name; symbol = m.symbol; decimals = m.decimals })
        working (rw same (own _ _ _ (kept.rows (to_lower m.address)))) kept.in_range
    where
      own :
          (found row before : Option MetadataRow)
          → found ≡ (if to_lower m.address == to_lower m.address then row else before)
          → found ≡ row
      own found row before e = rw (beq_refl (to_lower m.address)) at e
