-- ===== src/Indexer/Reorg/Laws.antt =====
-- What the reorg manager relies on of the node and of the store, by what the store shows: its
-- checkpoint, and the hash that it has recorded at each height.
use chain_watch.Prelude.{
  ℕ, ◌+◌, ◌≤◌, ◌<◌, ◌≡◌, refl, ◌≢◌, ◌∙◌, Option, none, some, ◌==◌, nat_eq, leb, if◌then◌else◌,
}
use chain_watch.Errors.{ok, err, GoError}
use chain_watch.Domain.{BlockHash, BlockCheckpoint, ObservedBlock}
use chain_watch.Indexer.Reorg.{CanonicalBlockClient, ReorgPersistence}

pub record View (W : Type 0) : Type 0 where
  pub checkpoint : W → Option BlockCheckpoint
  pub hash_at : W → ℕ → Option BlockHash

pub record SameView {W : Type 0} (v : View W) (before after : W) : Type 0 where
  pub same_checkpoint : v.checkpoint after ≡ v.checkpoint before
  pub same_hash : (n : ℕ) → v.hash_at after n ≡ v.hash_at before n

pub SameView-refl : {W : Type 0} {v : View W} (w : W) → SameView v w w
SameView-refl w = record { same_checkpoint = refl; same_hash = λ n. refl }

pub SameView-trans :
    {W : Type 0} {v : View W} {a b c : W} → SameView v a b → SameView v b c → SameView v a c
SameView-trans p q = record {
  same_checkpoint = q.same_checkpoint ∙ p.same_checkpoint;
  same_hash = λ n. q.same_hash n ∙ p.same_hash n;
}

-- The node reports the canonical chain, and a call of it changes nothing in the store.
pub record FollowsChain {W : Type 0} (v : View W) (chain : ℕ → BlockHash)
    (client : CanonicalBlockClient W) : Type 0 where
  pub canonical_hash :
      (n : ℕ) (w : W) (block : ObservedBlock)
      → (client.get_observed_block_by_number n w).0 ≡ ok block
      → block.hash ≡ chain n
  pub get_block_same : (n : ℕ) (w : W) → SameView v w (client.get_observed_block_by_number n w).1

-- What RollbackTo leaves.
pub record RolledBack {W : Type 0} (v : View W) (ancestor : BlockCheckpoint) (before after : W)
    : Type 0 where
  pub moved : v.checkpoint after ≡ some ancestor
  pub removed :
      (n : ℕ) → v.hash_at after n ≡ (if leb n ancestor.number then v.hash_at before n else none)

-- The store answers by its view, a write that succeeds shows in it, and one that fails does not.
pub record Stores {W : Type 0} (v : View W) (store : ReorgPersistence W) : Type 0 where
  pub load_ok :
      (w : W) (found : Option BlockCheckpoint)
      → (store.load w).0 ≡ ok found
      → found ≡ v.checkpoint w
  pub load_same : (w : W) → SameView v w (store.load w).1
  pub hash_ok :
      (n : ℕ) (w : W) (found : Option BlockHash)
      → (store.load_indexed_block_hash n w).0 ≡ ok found
      → found ≡ v.hash_at w n
  pub hash_same : (n : ℕ) (w : W) → SameView v w (store.load_indexed_block_hash n w).1
  pub rollback_ok :
      (c : BlockCheckpoint) (w : W)
      → (store.rollback_to c w).0 ≡ ok tt
      → RolledBack v c w (store.rollback_to c w).1
  pub rollback_err :
      (c : BlockCheckpoint) (w : W) (e : GoError)
      → (store.rollback_to c w).0 ≡ err e
      → SameView v w (store.rollback_to c w).1
  pub ensure_checkpoint :
      (c : BlockCheckpoint) (w : W)
      → v.checkpoint (store.ensure_indexed_block c w).1 ≡ v.checkpoint w
  pub ensure_ok :
      (c : BlockCheckpoint) (w : W) (n : ℕ)
      → (store.ensure_indexed_block c w).0 ≡ ok tt
      → v.hash_at (store.ensure_indexed_block c w).1 n
        ≡ (if n == c.number then some c.hash else v.hash_at w n)
  pub ensure_err :
      (c : BlockCheckpoint) (w : W) (e : GoError)
      → (store.ensure_indexed_block c w).0 ≡ err e
      → SameView v w (store.ensure_indexed_block c w).1

-- `ancestor` is the nearest recorded block below the checkpoint that is on the canonical chain, at
-- most `max_depth` below it, and every block between them is recorded and is not on the chain.
pub record Nearest {W : Type 0} (v : View W) (chain : ℕ → BlockHash) (max_depth : ℕ)
    (checkpoint ancestor : BlockCheckpoint) (w : W) : Type 0 where
  pub below : ancestor.number < checkpoint.number
  pub within : checkpoint.number ≤ ancestor.number + max_depth
  pub stored : v.hash_at w ancestor.number ≡ some ancestor.hash
  pub on_chain : chain ancestor.number ≡ ancestor.hash
  pub orphaned :
      (n : ℕ)
      → ancestor.number < n
      → n < checkpoint.number
      → (h : BlockHash) × (v.hash_at w n ≡ some h) × (chain n ≢ h)
