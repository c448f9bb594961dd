-- ===== src/Tests/Node.antt =====
-- A node with a fixed chain, and a store in memory behind a live context.
use chain_watch.Prelude.{ℕ, ◌-◌, true, ◌≡◌, refl, sym, ap, [], ◌∷◌, ◌==◌, nat_eq, if◌then◌else◌}
use chain_watch.Errors.{nil, ok}
use chain_watch.Effects.{◌>>=◌}
use chain_watch.Domain.{BlockHash, BlockTransferIndex, ObservedBlock}
use chain_watch.Indexer.{TransferBlockClient, BlockPersistence}
use chain_watch.Indexer.Reorg.{CanonicalBlockClient, ReorgPersistence}
use chain_watch.Indexer.Reorg.Laws.{FollowsChain, SameView-refl}
use chain_watch.Indexer.Memory.{MemoryCheckpointStore, memory_persistence, memory_store}
use chain_watch.Indexer.Memory.Laws.{memory_view}
use chain_watch.Indexer.Concurrent.{fetch_index}
use chain_watch.Indexer.Concurrent.Rounds.{IsSnapshot}

abbrev pub World : Type 0
World = MemoryCheckpointStore

abbrev pub chain : ℕ → BlockHash
chain n = if n == 5 then "h5" else if n == 6 then "h6" else "h"

abbrev pub block_of : ℕ → ObservedBlock
block_of n = record {
  number = n;
  hash = chain n;
  parent_hash = chain (n - 1);
  timestamp = 0;
  transactions = [];
}

abbrev pub index_of : ObservedBlock → BlockTransferIndex
index_of block = record {
  block_number = block.number;
  block_hash = block.hash;
  parent_hash = block.parent_hash;
  transfers = [];
}

abbrev pub node : TransferBlockClient World
node = record {
  get_observed_block_by_number = λ n w. (ok (block_of n), w);
  get_erc20_transfers_by_block = λ block w. (ok (index_of block), w);
}

abbrev pub canonical_node : CanonicalBlockClient World
canonical_node = record { get_observed_block_by_number = λ n w. (ok (block_of n), w) }

abbrev pub memory : BlockPersistence World
memory = memory_persistence nil

abbrev pub reorg_memory : ReorgPersistence World
reorg_memory = memory_store nil

pub node-IsSnapshot : IsSnapshot (λ n. ok (index_of (block_of n))) node
unfolding fetch_index ◌>>=◌
node-IsSnapshot = record { answers = λ n w. refl }

same_block : (a b : ObservedBlock) → ok a ≡ ok b → a ≡ b
same_block a b e = cc

pub node-FollowsChain : FollowsChain memory_view chain canonical_node
node-FollowsChain = record {
  canonical_hash = λ n w block e. ap (λ (b : ObservedBlock). b.hash) (sym (same_block _ _ e));
  get_block_same = λ n w. SameView-refl w;
}

-- The store holds block 4 with its canonical hash, and two blocks that are orphaned.
abbrev pub orphaned_store : World
orphaned_store = record {
  checkpoint = record { number = 6; hash = "x6" };
  exists = true;
  indexes =
      (4, index_of (block_of 4))
      ∷ (5, record { block_number = 5; block_hash = "x5"; parent_hash = "h"; transfers = [] })
      ∷ (6, record { block_number = 6; block_hash = "x6"; parent_hash = "x5"; transfers = [] })
      ∷ [];
}
