-- ===== src/Store/Blocks/Saves.antt =====
-- What SaveIndexedBlock of the PostgreSQL persistence leaves.
use chain_watch.Prelude.{
  ℕ, ◌^◌, ◌<◌, ◌≡◌, ◌∙◌, refl, ap, String, true, ◌==◌, nat_eq, string_eq, some, List, All, ◌++◌,
  Bool-cases, inl, inr, ℤ, leb, lookup, insert, lookup-insert, arith, if◌then◌else◌,
}
use chain_watch.Errors.{GoError, Result, ok, err, is, no_rows}
use chain_watch.Effects.Ends.{
  Ends, Ends-ok, Ends-err, Ends-fail, Ends-give, Ends-bind, Ends-mono, Ends-classifying,
}
use chain_watch.Domain.{BlockHash, BlockCheckpoint, BlockTransferIndex, Erc20Transfer}
use chain_watch.Store.{TransferRow, Tables, Database, counted}
use chain_watch.Store.Valid.{KeysFit}
use chain_watch.Store.Rules.{statement-Ends, transaction-Ends}
use chain_watch.Store.Checkpoint.{reading, upsert_checkpoint}
use chain_watch.Store.Transfers.Added.{Added}
use chain_watch.Store.Transfers.{has_key, insert_block_transfers}
use chain_watch.Store.Transfers.Inserts.{Inserted, insert_transfers-Ends}
use chain_watch.Store.Blocks.Records.{hash_in, parent_after, Recorded, upsert_block_row-Ends}
use chain_watch.Store.Blocks.{
  recorded, PostgresBlockPersistence, record_indexed_block, save_statements, save_indexed_block,
}

-- The checkpoint under `name` is moved, no other; no other table changes.
pub record Moved (name : String) (checkpoint : BlockCheckpoint) (before after : Tables)
    : Type 0 where
  pub names :
      (m : String)
      → lookup m after.checkpoints
        ≡ (if name == m then some checkpoint else lookup m before.checkpoints)
  pub same_blocks : after.indexed_blocks ≡ before.indexed_blocks
  pub same_transfers : after.erc20_transfers ≡ before.erc20_transfers
  pub same_metadata : after.token_metadata ≡ before.token_metadata

-- What a saved block leaves, in one step: a row of each of its transfers whose key had none, behind the
-- rows that were there, the row of the block, and the checkpoint at the block. All other rows are as
-- they were.
pub record Saved (value_text : ℤ → String) (name : String) (index : BlockTransferIndex)
    (before after : Tables) : Type 0 where
  pub new_rows : List TransferRow
  pub added : Added value_text index index.transfers before.erc20_transfers new_rows
  pub appended : after.erc20_transfers ≡ before.erc20_transfers ++ new_rows
  pub keyed :
      All
        (λ (t : Erc20Transfer). has_key t.transaction_hash t.log_index after.erc20_transfers ≡ true)
        index.transfers
  pub blocks :
      (n : ℕ)
      → lookup n after.indexed_blocks ≡ (
          if index.block_number == n
          then some (record {
            block_hash = index.block_hash;
            parent_hash =
                parent_after (lookup index.block_number before.indexed_blocks) index.parent_hash;
          })
          else lookup n before.indexed_blocks)
  pub agrees : (h : BlockHash) → hash_in before index.block_number ≡ some h → h ≡ index.block_hash
  pub names :
      (m : String)
      → lookup m after.checkpoints ≡ (
          if name == m
          then some (record { number = index.block_number; hash = index.block_hash })
          else lookup m before.checkpoints)
  pub keys : KeysFit before → KeysFit after
  pub same_metadata : after.token_metadata ≡ before.token_metadata

Saved-of_parts :
    {value_text : ℤ → String} {name : String} {index : BlockTransferIndex} {a b c d : Tables}
    → Inserted value_text index index.transfers a b
    → Recorded index.block_number index.block_hash index.parent_hash b c
    → Moved name (record { number = index.block_number; hash = index.block_hash }) c d
    → Saved value_text name index a d
Saved-of_parts {value_text} {name} {index} {a} {b} {c} {d} first second third =
    let rows : d.erc20_transfers ≡ b.erc20_transfers =
      third.same_transfers ∙ second.same_transfers in
    let blocks : d.indexed_blocks ≡ c.indexed_blocks = third.same_blocks in
    let earlier : b.indexed_blocks ≡ a.indexed_blocks = first.same_blocks in
    let points : c.checkpoints ≡ a.checkpoints = second.same_checkpoints ∙ first.same_checkpoints in
    record {
      new_rows = first.new_rows;
      added = first.added;
      appended = rows ∙ first.appended;
      keyed = rw rows first.keyed;
      blocks = λ n. rw blocks (rw (← earlier) (second.blocks n));
      agrees = rw (← earlier) second.agrees;
      names = λ m. rw (← points) (third.names m);
      keys = λ fit. rw blocks (second.keys (rw earlier fit));
      same_metadata = third.same_metadata ∙ second.same_metadata ∙ first.same_metadata;
    }

module _ (fault : ℕ → GoError) where
  pub upsert_checkpoint-Ends :
      (name : String) (c : BlockCheckpoint) (d : Database)
      → Ends
          (λ u after. Moved name c d.tables after.tables × (c.number < 2 ^ 63))
          (λ after. after.tables ≡ d.tables)
          (upsert_checkpoint fault name c d)
  unfolding upsert_checkpoint
  upsert_checkpoint-Ends name c d = elim (Bool-cases (leb (2 ^ 63) c.number)) [
    | inl too_large ↦ rw too_large (Ends-fail _ d refl)
    | inr low ↦ rw low (statement-Ends fault _ d (Ends-ok tt _ (moved (ground arith))) refl)
  ]
    where
      moved :
          c.number < 2 ^ 63
          → Moved name c d.tables
              (record (d.tables) { checkpoints = insert name c d.tables.checkpoints })
            × (c.number < 2 ^ 63)
      moved low = (
        record {
          names = λ m. lookup-insert name m c d.tables.checkpoints;
          same_blocks = refl;
          same_transfers = refl;
          same_metadata = refl;
        },
        low,
      )

  recorded-Ends :
      (P E : Tables → Type 0) (r : Result BlockHash × Database)
      → Ends (λ h after. P after.tables) (λ after. E after.tables) r
      → Ends (λ u after. P after.tables) (λ after. E after.tables) (reading recorded r)
  recorded-Ends P E (ok h, d) ends = Ends-ok tt d (ends.returns h refl)
  recorded-Ends P E (err e, d) ends = elim (Bool-cases (is e no_rows)) [
    | inl missing ↦ rw missing (Ends-err _ d (ends.fails e refl))
    | inr other ↦ rw other (Ends-err e d (ends.fails e refl))
  ]

  module _ (value_text : ℤ → String) (s : PostgresBlockPersistence) where
    pub record_indexed_block-Ends :
        (number : ℕ) (hash parent : BlockHash) (d : Database)
        → Ends
            (λ u after. Recorded number hash parent d.tables after.tables)
            (λ after. after.tables ≡ d.tables)
            (record_indexed_block fault value_text s number hash parent d)
    unfolding record_indexed_block
    record_indexed_block-Ends number hash parent d =
        recorded-Ends (Recorded number hash parent d.tables) (λ t. t ≡ d.tables) _
          (statement-Ends fault _ d
            (upsert_block_row-Ends number (record { block_hash = hash; parent_hash = parent })
              d.tables)
            refl)

    save_statements-Ends :
        (index : BlockTransferIndex) (d : Database)
        → Ends
            (λ u after. Saved value_text s.checkpoint_name index d.tables after.tables)
            (λ after. Unit)
            (save_statements fault value_text s index d)
    unfolding save_statements insert_block_transfers
    save_statements-Ends index d =
        Ends-bind (λ u after. Inserted value_text index index.transfers d.tables after.tables) _ _ d
          (insert_transfers-Ends fault value_text index index.transfers d)
          λ u d₁ inserted.
            Ends-bind
              (λ v after.
                Recorded index.block_number index.block_hash index.parent_hash d₁.tables
                  after.tables)
              _ _ d₁
              (Ends-mono _
                (record_indexed_block-Ends index.block_number index.block_hash index.parent_hash d₁)
                (λ v after h. h) (λ after h. tt))
              λ v d₂ done.
                Ends-bind (λ w after. after ≡ d₂) _ _ d₂ (Ends-give _ d₂ (λ w h. refl) tt)
                  λ w d₃ same.
                    Ends-mono _ (upsert_checkpoint-Ends s.checkpoint_name _ d₃)
                      (λ x after moved.
                        Saved-of_parts inserted done
                          (rw (← ap (λ (y : Database). y.tables) same) (moved.0)))
                      (λ after h. tt)

    -- SaveIndexedBlock is atomic, whatever statement fails: without an error the rows that
    -- were added are, in the order of the block, one for each transfer whose transaction hash and log index
    -- had no row yet, with the fields of the transfer and of the block; each transfer has a row; the hash
    -- of the block is recorded, did not replace another, and the parent hash of the block with it unless
    -- the row had one; the checkpoint is at the block; no other row has changed. With an error the tables
    -- are as they were.
    pub save_indexed_block-Ends :
        (index : BlockTransferIndex) (d : Database)
        → Ends
            (λ u after. Saved value_text s.checkpoint_name index d.tables after.tables)
            (λ after. after.tables ≡ d.tables)
            (save_indexed_block fault value_text s index d)
    unfolding save_indexed_block
    save_indexed_block-Ends index d = Ends-classifying _ _ _ d (
        transaction-Ends fault (Saved value_text s.checkpoint_name index d.tables) _ _ _ d
          (save_statements-Ends index (counted d)))
