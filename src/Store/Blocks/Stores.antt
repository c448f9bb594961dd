-- ===== src/Store/Blocks/Stores.antt =====
-- The PostgreSQL persistence meets what the reorg manager asks of a store, on tables that satisfy
-- their constraint.
use chain_watch.Prelude.{
  ℕ, ◌≡◌, refl, ap, String, false, Option, some, ◌==◌, nat_eq, string_eq, beq_refl, ℤ, lookup,
  if◌then◌else◌, arith,
}
use chain_watch.Errors.{GoError, Result, ok, err, is, no_rows}
use chain_watch.Effects.{Action}
use chain_watch.Effects.Ends.{Ends, Ends-mono}
use chain_watch.Domain.{BlockHash, BlockCheckpoint, BlockTransferIndex}
use chain_watch.Indexer.{BlockPersistence}
use chain_watch.Indexer.Reorg.{ReorgPersistence}
use chain_watch.Indexer.Reorg.Laws.{View, SameView, RolledBack, Stores}
use chain_watch.Store.{Tables, Database}
use chain_watch.Store.Valid.{KeysFit}
use chain_watch.Store.Checkpoint.{load}
use chain_watch.Store.Blocks.{
  PostgresBlockPersistence, save_indexed_block, ensure_indexed_block, load_indexed_block_hash,
  rollback_to,
}
use chain_watch.Store.Blocks.Records.{hash_in}
use chain_watch.Store.Blocks.Saves.{save_indexed_block-Ends}
use chain_watch.Store.Blocks.Laws.{Rolled, load-Ends, load_hash-Ends, ensure-Ends, rollback_to-Ends}

-- The tables with their constraint, as a world for the reorg manager.
pub record ValidDatabase : Type 0 where
  pub database : Database
  pub keys_fit : KeysFit database.tables

both-Ends :
    {A : Type 0} (P : Tables → Type 0) (r : Result A × Database)
    → Ends (λ a after. P after.tables) (λ after. P after.tables) r
    → P r.1.tables
both-Ends P (ok a, d) h = h.returns a refl
both-Ends P (err e, d) h = h.fails e refl

-- An action that keeps the constraint.
unfoldable pub on_valid :
    {A : Type 0} (m : Action Database A)
    → ((d : Database) → KeysFit d.tables → KeysFit (m d).1.tables)
    → Action ValidDatabase A
on_valid m keeps v = (
  (m v.database).0,
  record { database = (m v.database).1; keys_fit = keeps v.database v.keys_fit },
)

same-KeysFit :
    {A : Type 0} {Q : A → Database → Type 0} (r : Result A × Database) (d : Database)
    → Ends (λ a after. Q a after × (after.tables ≡ d.tables)) (λ after. after.tables ≡ d.tables) r
    → KeysFit d.tables
    → KeysFit r.1.tables
same-KeysFit r d ends fit =
    both-Ends KeysFit r (Ends-mono _ ends (λ a after h. rw h.1 fit) (λ after h. rw h fit))

same_tables :
    {A : Type 0} {Q : A → Database → Type 0} (r : Result A × Database) (d : Database)
    → Ends (λ a after. Q a after × (after.tables ≡ d.tables)) (λ after. after.tables ≡ d.tables) r
    → r.1.tables ≡ d.tables
same_tables r d ends =
    both-Ends (λ t. t ≡ d.tables) r (Ends-mono _ ends (λ a after h. h.1) (λ after h. h))

module _ (fault : ℕ → GoError) (honest : (k : ℕ) → is (fault k) no_rows ≡ false)
    (value_text : ℤ → String) (s : PostgresBlockPersistence) where
  abbrev pub postgres_view : View ValidDatabase
  postgres_view = record {
    checkpoint = λ v. lookup s.checkpoint_name v.database.tables.checkpoints;
    hash_at = λ v n. hash_in v.database.tables n;
  }

  pub load_keeps :
      (d : Database) → KeysFit d.tables → KeysFit (load fault s.checkpoint_name d).1.tables
  load_keeps d = same-KeysFit _ d (load-Ends fault honest s.checkpoint_name d)

  pub hash_keeps :
      (n : ℕ) (d : Database)
      → KeysFit d.tables
      → KeysFit (load_indexed_block_hash fault value_text s n d).1.tables
  hash_keeps n d = same-KeysFit _ d (load_hash-Ends fault honest value_text s n d)

  pub save_keeps :
      (index : BlockTransferIndex) (d : Database)
      → KeysFit d.tables
      → KeysFit (save_indexed_block fault value_text s index d).1.tables
  save_keeps index d fit = both-Ends KeysFit _ (
      Ends-mono _ (save_indexed_block-Ends fault value_text s index d) (λ u after h. h.keys fit)
        (λ after h. rw h fit))

  pub ensure_keeps :
      (c : BlockCheckpoint) (d : Database)
      → KeysFit d.tables
      → KeysFit (ensure_indexed_block fault value_text s c d).1.tables
  ensure_keeps c d fit = both-Ends KeysFit _ (
      Ends-mono _ (ensure-Ends fault value_text s c d) (λ u after h. h.keys fit)
        (λ after h. rw h fit))

  pub rollback_keeps :
      (c : BlockCheckpoint) (d : Database)
      → KeysFit d.tables
      → KeysFit (rollback_to fault value_text s c d).1.tables
  rollback_keeps c d fit = both-Ends KeysFit _ (
      Ends-mono _ (rollback_to-Ends fault value_text s c d) (λ u after h. h.keys fit)
        (λ after h. rw h fit))

  -- The methods of the persistence on valid tables.
  abbrev pub valid_persistence : BlockPersistence ValidDatabase
  valid_persistence = record {
    load = on_valid (load fault s.checkpoint_name) load_keeps;
    save_indexed_block =
        λ index. on_valid (save_indexed_block fault value_text s index) (save_keeps index);
  }

  abbrev pub valid_store : ReorgPersistence ValidDatabase
  valid_store = record {
    block_persistence = valid_persistence;
    ensure_indexed_block =
        λ c. on_valid (ensure_indexed_block fault value_text s c) (ensure_keeps c);
    load_indexed_block_hash =
        λ n. on_valid (load_indexed_block_hash fault value_text s n) (hash_keeps n);
    rollback_to = λ c. on_valid (rollback_to fault value_text s c) (rollback_keeps c);
  }

  SameView-of_tables :
      (v w : ValidDatabase) → w.database.tables ≡ v.database.tables → SameView postgres_view v w
  SameView-of_tables v w e = record {
    same_checkpoint = ap (λ (t : Tables). lookup s.checkpoint_name t.checkpoints) e;
    same_hash = λ n. ap (λ (t : Tables). hash_in t n) e;
  }

  RolledBack-of_Rolled :
      (c : BlockCheckpoint) (v w : ValidDatabase)
      → Rolled s.checkpoint_name c v.database.tables w.database.tables
      → RolledBack postgres_view c v w
  RolledBack-of_Rolled c v w rolled = record {
    moved = own _ (rolled.moved s.checkpoint_name);
    removed = rolled.hashes v.keys_fit;
  }
    where
      own :
          (found : Option BlockCheckpoint)
          → found ≡ (
              if s.checkpoint_name == s.checkpoint_name
              then some c
              else lookup s.checkpoint_name v.database.tables.checkpoints)
          → found ≡ some c
      own found e = rw beq_refl at e

  -- On tables that satisfy their constraint the PostgreSQL persistence is a store for the reorg manager,
  -- whatever statements fail, if no failure is reported as pgx.ErrNoRows.
  pub postgres-Stores : Stores postgres_view valid_store
  unfolding on_valid
  postgres-Stores = record {
    load_ok =
        λ v found e. ((load-Ends fault honest s.checkpoint_name v.database).returns found e).0;
    load_same = λ v.
        SameView-of_tables v _
          (same_tables _ v.database (load-Ends fault honest s.checkpoint_name v.database));
    hash_ok =
        λ n v found e. ((load_hash-Ends fault honest value_text s n v.database).returns found e).0;
    hash_same = λ n v.
        SameView-of_tables v _
          (same_tables _ v.database (load_hash-Ends fault honest value_text s n v.database));
    rollback_ok = λ c v e.
        RolledBack-of_Rolled c v _
          ((rollback_to-Ends fault value_text s c v.database).returns tt e);
    rollback_err = λ c v x e.
        SameView-of_tables v _ ((rollback_to-Ends fault value_text s c v.database).fails x e);
    ensure_checkpoint = λ c v.
        both-Ends
          (λ t.
            lookup s.checkpoint_name t.checkpoints
            ≡ lookup s.checkpoint_name v.database.tables.checkpoints)
          (ensure_indexed_block fault value_text s c v.database)
          (Ends-mono _ (ensure-Ends fault value_text s c v.database)
            (λ u after h. ap (lookup s.checkpoint_name) h.same_checkpoints)
            (λ after h. ap (λ (t : Tables). lookup s.checkpoint_name t.checkpoints) h));
    ensure_ok = λ c v n e.
        turned n c.number _ _
          (((ensure-Ends fault value_text s c v.database).returns tt e).hashes n);
    ensure_err =
        λ c v x e. SameView-of_tables v _ ((ensure-Ends fault value_text s c v.database).fails x e);
  }
    where
      turned :
          (n m : ℕ) {a : Option BlockHash} (h before : Option BlockHash)
          → a ≡ (if m == n then h else before)
          → a ≡ (if n == m then h else before)
      turned n m h before e = ground arith
