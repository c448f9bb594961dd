-- ===== src/Indexer/Memory.antt =====
-- internal/indexer/checkpoint.go: the store in memory. The lock makes each method one step. `ctx` is
-- what `ctx.Err()` gives at the call, nil while the context is live.
pub mod Laws
pub mod Verifying
use chain_watch.Prelude.{
  ℕ, Bool, true, false, Option, none, some, List, [], ◌==◌, nat_eq, string_eq, not, ltb, lookup,
  insert, delete_where, if◌then◌else◌,
}
use mathlib.Core.Option
use chain_watch.Errors.{GoError, is_nil, chain_reorg, sentinel, Result, ok, err}
use chain_watch.Effects.{Action}
use chain_watch.Domain.{BlockHash, BlockCheckpoint, BlockTransferIndex}
use chain_watch.Indexer.{BlockPersistence}
use chain_watch.Indexer.Reorg.{ReorgPersistence}

pub record MemoryCheckpointStore : Type 0 where
  pub checkpoint : BlockCheckpoint
  pub exists : Bool
  pub indexes : List (ℕ × BlockTransferIndex)

unfoldable pub new_memory_checkpoint_store : MemoryCheckpointStore
new_memory_checkpoint_store = record {
  checkpoint = record { number = 0; hash = "" };
  exists = false;
  indexes = [];
}

-- The index that EnsureIndexedBlock writes.
abbrev pub bare_index : BlockCheckpoint → BlockTransferIndex
bare_index checkpoint = record {
  block_number = checkpoint.number;
  block_hash = checkpoint.hash;
  parent_hash = "";
  transfers = [];
}

-- `if err := ctx.Err(); err != nil { return err }` in front of a method.
abbrev live :
    {A : Type 0} → GoError → Action MemoryCheckpointStore A → Action MemoryCheckpointStore A
live ctx m s = if is_nil ctx then m s else (err ctx, s)

module _ (ctx : GoError) where
  unfoldable pub load : Action MemoryCheckpointStore (Option BlockCheckpoint)
  load = live ctx λ s. (ok (if s.exists then some s.checkpoint else none), s)

  unfoldable pub save : BlockCheckpoint → Action MemoryCheckpointStore (Unit {0})
  save checkpoint = live ctx λ s. (ok tt, record s { checkpoint = checkpoint; exists = true })

  -- The clone of the index is the index: values are not shared here.
  unfoldable pub save_indexed_block : BlockTransferIndex → Action MemoryCheckpointStore (Unit {0})
  save_indexed_block index = live ctx λ s. (
    ok tt,
    record {
      checkpoint = record { number = index.block_number; hash = index.block_hash };
      exists = true;
      indexes = insert index.block_number index s.indexes;
    },
  )

  conflicts : Option BlockTransferIndex → BlockHash → Bool
  conflicts none hash = false
  conflicts (some existing) hash = not (existing.block_hash == hash)

  unfoldable pub ensure_indexed_block : BlockCheckpoint → Action MemoryCheckpointStore (Unit {0})
  unfolding conflicts
  ensure_indexed_block checkpoint = live ctx λ s.
      if conflicts (lookup checkpoint.number s.indexes) checkpoint.hash
      then (err (sentinel chain_reorg), s)
      else (
        ok tt,
        record s { indexes = insert checkpoint.number (bare_index checkpoint) s.indexes },
      )

  unfoldable pub load_indexed_block_hash : ℕ → Action MemoryCheckpointStore (Option BlockHash)
  load_indexed_block_hash block_number =
      live ctx λ s. (ok (Option.map (λ index. index.block_hash) (lookup block_number s.indexes)), s)

  unfoldable pub rollback_to : BlockCheckpoint → Action MemoryCheckpointStore (Unit {0})
  rollback_to checkpoint = live ctx λ s. (
    ok tt,
    record {
      checkpoint = checkpoint;
      exists = true;
      indexes = delete_where (λ n. ltb checkpoint.number n) s.indexes;
    },
  )

  abbrev pub memory_persistence : BlockPersistence MemoryCheckpointStore
  memory_persistence = record { load = load; save_indexed_block = save_indexed_block }

  abbrev pub memory_store : ReorgPersistence MemoryCheckpointStore
  memory_store = record {
    block_persistence = memory_persistence;
    ensure_indexed_block = ensure_indexed_block;
    load_indexed_block_hash = load_indexed_block_hash;
    rollback_to = rollback_to;
  }
