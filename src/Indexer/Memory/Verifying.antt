-- ===== src/Indexer/Memory/Verifying.antt =====
-- A checkpoint of the store in memory that the reorg manager verifies.
use chain_watch.Prelude.{
  ℕ, ◌<◌, ◌≡◌, refl, true, false, some, ◌==◌, nat_eq, string_eq, beq_refl, lookup, insert,
  lookup-insert, if◌then◌else◌, arith,
}
use chain_watch.Errors.{GoError, is_nil, ok}
use chain_watch.Effects.{◌>>=◌}
use chain_watch.Domain.{BlockCheckpoint, BlockTransferIndex, ObservedBlock}
use chain_watch.Indexer.Memory.{
  MemoryCheckpointStore, bare_index, load, save_indexed_block, ensure_indexed_block, memory_store,
}
use chain_watch.Indexer.Reorg.{CanonicalBlockClient, verified, reconcile}

abbrev pub checkpoint_of : BlockTransferIndex → BlockCheckpoint
checkpoint_of index = record { number = index.block_number; hash = index.block_hash }

module _ (ctx : GoError) (client : CanonicalBlockClient MemoryCheckpointStore) where
  -- The store behind SaveIndexedBlock.
  abbrev pub stored : BlockTransferIndex → MemoryCheckpointStore → MemoryCheckpointStore
  stored index s = (save_indexed_block ctx index s).1

  abbrev held : BlockTransferIndex → MemoryCheckpointStore → MemoryCheckpointStore
  held index s = record {
    checkpoint = checkpoint_of index;
    exists = true;
    indexes = insert index.block_number index s.indexes;
  }

  held_after :
      (index : BlockTransferIndex) (s : MemoryCheckpointStore)
      → is_nil ctx ≡ true
      → stored index s ≡ held index s
  unfolding save_indexed_block
  held_after index s active = ground arith

  ensured :
      (index : BlockTransferIndex) (s : MemoryCheckpointStore)
      → is_nil ctx ≡ true
      → ensure_indexed_block ctx (checkpoint_of index) (held index s) ≡ (
        ok tt,
        record (held index s) {
          indexes =
              insert index.block_number
                (bare_index (checkpoint_of index))
                (insert index.block_number index s.indexes);
        },
      )
  unfolding ensure_indexed_block
  ensured index s active =
      let own : lookup index.block_number (insert index.block_number index s.indexes) ≡ some index =
        ground (arith, lookup-insert index.block_number index.block_number index s.indexes) in
      rw (active, own, beq_refl index.block_hash) refl

  verified-result :
      (max_depth : ℕ) (index : BlockTransferIndex) (block : ObservedBlock)
      (s : MemoryCheckpointStore)
      → is_nil ctx ≡ true
      → 0 < max_depth
      → client.get_observed_block_by_number index.block_number (held index s)
        ≡ (ok block, held index s)
      → block.hash ≡ index.block_hash
      → reconcile client (memory_store ctx) max_depth (held index s) ≡ (
        ok (verified (checkpoint_of index)),
        record (held index s) {
          indexes =
              insert index.block_number
                (bare_index (checkpoint_of index))
                (insert index.block_number index s.indexes);
        },
      )
  unfolding reconcile load ◌>>=◌
  verified-result max_depth index block s active deep answer same =
      let some_depth : (max_depth == 0) ≡ false = ground arith in
      let agrees : (block.hash == index.block_hash) ≡ true = rw same (beq_refl index.block_hash) in
      rw some_depth (rw active (rw answer (rw agrees (rw (ensured index s active) refl))))

  -- Under a live context, with a positive depth, and where the node still has the block that was saved
  -- last: Reconcile finds no reorg, leaves the checkpoint, and forgets the transfers and the parent hash of
  -- that block, and of no other.
  pub reconcile-forgets :
      (max_depth : ℕ) (index : BlockTransferIndex) (block : ObservedBlock)
      (s : MemoryCheckpointStore)
      → is_nil ctx ≡ true
      → 0 < max_depth
      → client.get_observed_block_by_number index.block_number (stored index s)
        ≡ (ok block, stored index s)
      → block.hash ≡ index.block_hash
      → ((reconcile client (memory_store ctx) max_depth (stored index s)).0
          ≡ ok (verified (checkpoint_of index)))
        × ((reconcile client (memory_store ctx) max_depth (stored index s)).1.checkpoint
            ≡ checkpoint_of index)
        × ((n : ℕ)
            → lookup n (reconcile client (memory_store ctx) max_depth (stored index s)).1.indexes
              ≡ (if index.block_number == n
                  then some (bare_index (checkpoint_of index))
                  else lookup n s.indexes))
  reconcile-forgets max_depth index block s active deep answer same =
      let at = held_after index s active in
      let r = verified-result max_depth index block s active deep (rw at at answer) same in
      rw (at, r)
        (
          refl,
          refl,
          λ n. ground (
            arith,
            lookup-insert index.block_number n (bare_index (checkpoint_of index))
                (insert index.block_number index s.indexes),
            lookup-insert index.block_number n index s.indexes,
          ),
        )
