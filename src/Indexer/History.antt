-- ===== src/Indexer/History.antt =====
-- What the indexers rely on of the node and of the store, and the chains of blocks that they commit.
use chain_watch.Prelude.{ℕ, zero, suc, ◌+◌, ◌<◌, ◌≡◌, ◌⊎◌, List, [], ◌∷◌, ◌++◌, length, take}
use chain_watch.Errors.{ok, err, GoError}
use chain_watch.Domain.{BlockHash, BlockTransferIndex, ObservedBlock}
use chain_watch.Indexer.{TransferBlockClient, BlockPersistence}

-- The node answers a request for a number with a block of that number, and indexes the block that
-- it was handed. (BlockByNumber of the Ethereum client; EthereumClient copies the number.)
pub record AnswersNumbers {W : Type 0} (client : TransferBlockClient W) : Type 0 where
  pub number_of_block :
      (n : ℕ) (w : W) (block : ObservedBlock)
      → (client.get_observed_block_by_number n w).0 ≡ ok block
      → block.number ≡ n
  pub number_of_index :
      (block : ObservedBlock) (w : W) (index : BlockTransferIndex)
      → (client.get_erc20_transfers_by_block block w).0 ≡ ok index
      → index.block_number ≡ block.number

-- The atomic boundary: a save that succeeds commits the block, one that fails commits nothing, and
-- no other call commits anything. `history` lists what was committed, oldest first.
pub record Commits {W : Type 0} (client : TransferBlockClient W) (persistence : BlockPersistence W)
    : Type 0 where
  pub history : W → List BlockTransferIndex
  pub history_get_block :
      (n : ℕ) (w : W) → history (client.get_observed_block_by_number n w).1 ≡ history w
  pub history_get_transfers :
      (block : ObservedBlock) (w : W)
      → history (client.get_erc20_transfers_by_block block w).1 ≡ history w
  pub history_load : (w : W) → history (persistence.load w).1 ≡ history w
  pub history_save_ok :
      (index : BlockTransferIndex) (w : W)
      → (persistence.save_indexed_block index w).0 ≡ ok tt
      → history (persistence.save_indexed_block index w).1 ≡ history w ++ index ∷ []
  pub history_save_err :
      (index : BlockTransferIndex) (w : W) (e : GoError)
      → (persistence.save_indexed_block index w).0 ≡ err e
      → history (persistence.save_indexed_block index w).1 ≡ history w

-- The store behind the history of what is committed, apart from the client.
pub record KeepsHistory {W : Type 0} (history : W → List BlockTransferIndex)
    (persistence : BlockPersistence W) : Type 0 where
  pub load_keeps : (w : W) → history (persistence.load w).1 ≡ history w
  pub save_commits :
      (index : BlockTransferIndex) (w : W)
      → (persistence.save_indexed_block index w).0 ≡ ok tt
      → history (persistence.save_indexed_block index w).1 ≡ history w ++ index ∷ []
  pub failed_save_keeps :
      (index : BlockTransferIndex) (w : W) (e : GoError)
      → (persistence.save_indexed_block index w).0 ≡ err e
      → history (persistence.save_indexed_block index w).1 ≡ history w

-- A block may follow a hash: it names that hash as its parent, or one of the two is not known.
abbrev pub Follows : BlockHash → BlockTransferIndex → Type 0
Follows expected index = (index.parent_hash ≡ "") ⊎ (expected ≡ "") ⊎ (index.parent_hash ≡ expected)

abbrev pub Linked : BlockHash → List BlockTransferIndex → Type 0
Linked expected [] = Unit
Linked expected (index ∷ rest) = Follows expected index × Linked index.block_hash rest

abbrev pub numbers : List BlockTransferIndex → List ℕ
numbers [] = []
numbers (index ∷ rest) = index.block_number ∷ numbers rest

-- n, n + 1, ..., n + k.
abbrev pub count_up : ℕ → ℕ → List ℕ
count_up n zero = n ∷ []
count_up n (suc k) = n ∷ count_up (n + 1) k

-- A run over the numbers `ns` from `before` committed exactly `blocks`, in the order of `ns`.
pub record Whole (ns : List ℕ) (expected : BlockHash)
    (before blocks after : List BlockTransferIndex) : Type 0 where
  pub committed : after ≡ before ++ blocks
  pub linked : Linked expected blocks
  pub in_order : numbers blocks ≡ ns

-- A run over `ns` stopped: the blocks of a proper prefix of `ns` are committed, and no other.
pub record Stopped (ns : List ℕ) (expected : BlockHash) (before after : List BlockTransferIndex)
    : Type 0 where
  pub blocks : List BlockTransferIndex
  pub committed : after ≡ before ++ blocks
  pub linked : Linked expected blocks
  pub in_order : numbers blocks ≡ take (length blocks) ns
  pub fewer : length blocks < length ns
