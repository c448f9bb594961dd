-- ===== src/Ethereum/Client/Answers.antt =====
-- The blocks that the client answers with.
use chain_watch.Prelude.{ℕ, ◌≡◌, refl, true, none, some, String, List}
use chain_watch.Errors.{GoError, Sentinel, Result, ok, err, rpc, is, wrapped, classify_error}
use chain_watch.Errors.Classify.{classify_error-category, classify_error_keeps}
use chain_watch.Effects.{Action, pure, wrapping, classifying, ◌>>=◌}
use chain_watch.Domain.{ObservedTransaction, ObservedBlock}
use chain_watch.Domain.Transfers.{GoEthereum}
use chain_watch.Ethereum.{EthereumBlock, EthereumNode}
use chain_watch.Ethereum.Client.{
  observe_transactions, observed_block, get_observed_block_by_number, get_latest_observed_block,
}
use chain_watch.Ethereum.Client.Blocks.{
  Copies, Refused, Looped, all_copied, one_refused, observe_transactions-Looped,
}

module _ (lib : GoEthereum) {W : Type 0} (node : EthereumNode W) where
  -- The error is of ErrRPC, and is all that its cause is.
  pub record RpcErrorOf (cause e : GoError) : Type 0 where
    pub of_rpc : is e rpc ≡ true
    pub keeps : (target : Sentinel) → is cause target ≡ true → is e target ≡ true

  -- What a block is answered with, by the answer of the node.
  pub data Answered (answer : Result EthereumBlock × W) (r : Result ObservedBlock × W)
      : Type 0 where
    answered_block :
        (block : EthereumBlock) (transactions : List ObservedTransaction)
        → answer.0 ≡ ok block
        → Copies lib node block.hash 0 block.transactions transactions
        → r.0
          ≡ ok (record {
            number = block.number_u64;
            hash = lib.hash_hex block.hash;
            parent_hash = lib.hash_hex block.parent_hash;
            timestamp = block.time;
            transactions = transactions;
          })
        → Answered answer r
    answered_no_sender :
        (block : EthereumBlock) (cause e : GoError)
        → answer.0 ≡ ok block
        → Refused lib node block.hash cause 0 block.transactions
        → r.0 ≡ err e
        → RpcErrorOf cause e
        → Answered answer r
    answered_no_block :
        (cause e : GoError)
        → answer.0 ≡ err cause
        → r ≡ (err e, answer.1)
        → RpcErrorOf cause e
        → Answered answer r

  -- A cause that the code wraps and classifies.
  classified :
      (message operation : String) (cause : GoError)
      → RpcErrorOf cause (classify_error (wrapped message cause) rpc operation)
  unfolding is
  classified message operation cause = record {
    of_rpc = classify_error-category (wrapped message cause) rpc operation refl;
    keeps = classify_error_keeps (wrapped message cause) rpc operation refl;
  }

  observed_block-Answered :
      (message operation : String) (answer : Result EthereumBlock × W) (w : W)
      → Answered answer (
          classifying rpc operation
            (wrapping message (λ (_ : W). answer) >>= observed_block lib node)
            w)
  unfolding observed_block ◌>>=◌
  observed_block-Answered message operation (err cause, after) w =
      answered_no_block cause _ refl refl (classified message operation cause)
  observed_block-Answered message operation (ok block, after) w =
      loop (observe_transactions lib node block.hash 0 block.transactions after)
        (observe_transactions-Looped lib node block.hash 0 block.transactions after)
    where
      filled : List ObservedTransaction → Action W ObservedBlock
      filled transactions = pure (record {
        number = block.number_u64;
        hash = lib.hash_hex block.hash;
        parent_hash = lib.hash_hex block.parent_hash;
        timestamp = block.time;
        transactions = transactions;
      })

      loop :
          (r : Result (List ObservedTransaction) × W)
          → Looped lib node block.hash 0 block.transactions r
          → Answered (ok block, after) (classifying rpc operation ((λ (_ : W). r) >>= filled) w)
      loop (r, end) (all_copied transactions at copies) =
          rw at (answered_block block transactions refl copies refl)
      loop (r, end) (one_refused cause at refused) =
          rw at (answered_no_sender block cause _ refl refused refl (classified _ operation cause))

  -- The block with a number and the latest block: the client returns the node's block, with every
  -- transaction in its order and the sender that the node names for its position. It fails only if the
  -- node does not answer with a block, or names no sender for a transaction of it; the error is then one of
  -- ErrRPC, and whatever errors.Is finds in the node's error it finds in it.
  pub get_observed_block-Answered :
      (number : ℕ) (w : W)
      → Answered
          (node.block_by_number (some number) w)
          (get_observed_block_by_number lib node number w)
        × Answered (node.block_by_number none w) (get_latest_observed_block lib node w)
  unfolding get_observed_block_by_number get_latest_observed_block ◌>>=◌
  get_observed_block-Answered number w = (
    observed_block-Answered _ _ (node.block_by_number (some number) w) w,
    observed_block-Answered _ _ (node.block_by_number none w) w,
  )
