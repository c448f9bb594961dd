-- ===== src/Indexer/Memory/Laws.antt =====
-- The store in memory meets what the reorg manager asks of a store, and what it keeps of a block.
use chain_watch.Prelude.{
  ℕ, ◌≡◌, refl, ap, true, Option, none, some, ◌==◌, nat_eq, string_eq, ltb, lookup, lookup-insert,
  lookup-delete_where, if◌then◌else◌, arith, eq_iff,
}
use mathlib.Core.Option
use chain_watch.Errors.{GoError, is_nil, ok, err}
use chain_watch.Domain.{BlockHash, BlockCheckpoint, BlockTransferIndex}
use chain_watch.Indexer.Reorg.Laws.{View, SameView, RolledBack, Stores}
use chain_watch.Indexer.Memory.{
  MemoryCheckpointStore, bare_index, load, save_indexed_block, ensure_indexed_block,
  load_indexed_block_hash, rollback_to, memory_store,
}

abbrev pub hash_of : Option BlockTransferIndex → Option BlockHash
hash_of = Option.map (λ index. index.block_hash)

abbrev pub memory_view : View MemoryCheckpointStore
memory_view = record {
  checkpoint = λ s. if s.exists then some s.checkpoint else none;
  hash_at = λ s n. hash_of (lookup n s.indexes);
}

module _ (ctx : GoError) where
  memory_load :
      (w : MemoryCheckpointStore) {found : Option BlockCheckpoint}
      → (load ctx w).0 ≡ ok found
      → found ≡ memory_view.checkpoint w
  unfolding load
  memory_load w h = ground arith

  memory_load_same : (w : MemoryCheckpointStore) → (load ctx w).1 ≡ w
  unfolding load
  memory_load_same w = ground arith

  memory_hash :
      (n : ℕ) (w : MemoryCheckpointStore) {found : Option BlockHash}
      → (load_indexed_block_hash ctx n w).0 ≡ ok found
      → found ≡ memory_view.hash_at w n
  unfolding load_indexed_block_hash
  memory_hash n w h = ground arith

  memory_hash_same : (n : ℕ) (w : MemoryCheckpointStore) → (load_indexed_block_hash ctx n w).1 ≡ w
  unfolding load_indexed_block_hash
  memory_hash_same n w = ground arith

  memory_rollback :
      (c : BlockCheckpoint) (w : MemoryCheckpointStore)
      → (rollback_to ctx c w).0 ≡ ok tt
      → RolledBack memory_view c w (rollback_to ctx c w).1
  unfolding rollback_to
  memory_rollback c w h = record {
    moved = ground arith;
    removed = λ n. ground (arith, lookup-delete_where (λ k. ltb c.number k) n w.indexes);
  }

  memory_rollback_err :
      (c : BlockCheckpoint) (w : MemoryCheckpointStore) (e : GoError)
      → (rollback_to ctx c w).0 ≡ err e
      → (rollback_to ctx c w).1 ≡ w
  unfolding rollback_to
  memory_rollback_err c w e h = ground arith

  memory_ensure :
      (c : BlockCheckpoint) (w : MemoryCheckpointStore)
      → memory_view.checkpoint (ensure_indexed_block ctx c w).1 ≡ memory_view.checkpoint w
  unfolding ensure_indexed_block
  memory_ensure c w = ground arith

  memory_ensure_ok :
      (c : BlockCheckpoint) (w : MemoryCheckpointStore) (n : ℕ)
      → (ensure_indexed_block ctx c w).0 ≡ ok tt
      → memory_view.hash_at (ensure_indexed_block ctx c w).1 n
        ≡ (if n == c.number then some c.hash else memory_view.hash_at w n)
  unfolding ensure_indexed_block
  memory_ensure_ok c w n h = ground (arith, lookup-insert c.number n (bare_index c) w.indexes)

  memory_ensure_err :
      (c : BlockCheckpoint) (w : MemoryCheckpointStore) (e : GoError)
      → (ensure_indexed_block ctx c w).0 ≡ err e
      → (ensure_indexed_block ctx c w).1 ≡ w
  unfolding ensure_indexed_block
  memory_ensure_err c w e h = ground arith

  SameView-of_eq : {a b : MemoryCheckpointStore} → b ≡ a → SameView memory_view a b
  SameView-of_eq e = record {
    same_checkpoint = ap memory_view.checkpoint e;
    same_hash = λ n. ap (λ s. memory_view.hash_at s n) e;
  }

  -- The store in memory is a store for the reorg manager, under any context.
  pub memory-Stores : Stores memory_view (memory_store ctx)
  memory-Stores = record {
    load_ok = λ w found h. memory_load w h;
    load_same = λ w. SameView-of_eq (memory_load_same w);
    hash_ok = λ n w found h. memory_hash n w h;
    hash_same = λ n w. SameView-of_eq (memory_hash_same n w);
    rollback_ok = memory_rollback;
    rollback_err = λ c w e h. SameView-of_eq (memory_rollback_err c w e h);
    ensure_checkpoint = memory_ensure;
    ensure_ok = memory_ensure_ok;
    ensure_err = λ c w e h. SameView-of_eq (memory_ensure_err c w e h);
  }

  -- Under a live context SaveIndexedBlock returns no error, moves the checkpoint to the block, stores
  -- the block with its transfers under its number, and leaves every other number as it was.
  save_indexed_block_lem :
      (index : BlockTransferIndex) (s : MemoryCheckpointStore) (n : ℕ)
      → is_nil ctx ≡ true
      → ((save_indexed_block ctx index s).0 ≡ ok tt)
        × (memory_view.checkpoint (save_indexed_block ctx index s).1
            ≡ some (record { number = index.block_number; hash = index.block_hash }))
        × (lookup n (save_indexed_block ctx index s).1.indexes
            ≡ (if index.block_number == n then some index else lookup n s.indexes))
  unfolding save_indexed_block
  save_indexed_block_lem index s n active =
      rw active (refl, refl, lookup-insert index.block_number n index s.indexes)

  -- EnsureIndexedBlock on a block that is stored with the hash of the checkpoint forgets its transfers
  -- and its parent hash.
  ensure_forgets :
      (index : BlockTransferIndex) (c : BlockCheckpoint) (s : MemoryCheckpointStore)
      → is_nil ctx ≡ true
      → lookup c.number s.indexes ≡ some index
      → index.block_hash ≡ c.hash
      → lookup c.number (ensure_indexed_block ctx c s).1.indexes ≡ some (bare_index c)
  unfolding ensure_indexed_block
  ensure_forgets index c s active stored same = ground (
    arith,
    eq_iff index.block_hash c.hash,
    lookup-insert c.number c.number (bare_index c) s.indexes,
  )
