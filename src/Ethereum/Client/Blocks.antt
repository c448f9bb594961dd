-- ===== src/Ethereum/Client/Blocks.antt =====
-- The loop over the transactions of a block.
use chain_watch.Prelude.{ℕ, ◌+◌, ◌≡◌, refl, List, [], ◌∷◌}
use chain_watch.Errors.{GoError, Result, ok, err, wrapped}
use chain_watch.Effects.{Action, proceed, pure, wrapping, ◌>>=◌}
use chain_watch.Domain.{ObservedTransaction}
use chain_watch.Domain.Transfers.{Bytes, GoEthereum}
use chain_watch.Ethereum.{EthereumTransaction, EthereumNode}
use chain_watch.Ethereum.Client.{address_of, observed_transaction, observe_transactions}

module _ (lib : GoEthereum) {W : Type 0} (node : EthereumNode W) (hash : Bytes) where
  abbrev pub copied : EthereumTransaction → Bytes → ObservedTransaction
  copied tx sender = record {
    hash = lib.hash_hex tx.hash;
    from = lib.address_hex sender;
    to = address_of lib tx.to;
    value_wei = tx.value;
    nonce = tx.nonce;
    gas_limit = tx.gas;
    kind = tx.kind;
  }

  -- Each transaction is copied, in order, with the sender that the node names for its position.
  pub data Copies : ℕ → List EthereumTransaction → List ObservedTransaction → Type 0 where
    copies_none : (index : ℕ) → Copies index [] []
    copies_next :
        (index : ℕ) (tx : EthereumTransaction) (txs : List EthereumTransaction)
        (observed : List ObservedTransaction) (asked : W) (sender : Bytes)
        → (node.transaction_sender tx hash index asked).0 ≡ ok sender
        → Copies (index + 1) txs observed
        → Copies index (tx ∷ txs) (copied tx sender ∷ observed)

  -- The node names no sender for some transaction.
  pub data Refused (cause : GoError) : ℕ → List EthereumTransaction → Type 0 where
    refused_here :
        (index : ℕ) (tx : EthereumTransaction) (txs : List EthereumTransaction) (asked : W)
        → (node.transaction_sender tx hash index asked).0 ≡ err cause
        → Refused cause index (tx ∷ txs)
    refused_later :
        (index : ℕ) (tx : EthereumTransaction) (txs : List EthereumTransaction)
        → Refused cause (index + 1) txs
        → Refused cause index (tx ∷ txs)

  abbrev pub no_sender : GoError → GoError
  no_sender = wrapped "failed to recover sender for transaction %s"

  pub data Looped (index : ℕ) (txs : List EthereumTransaction)
      (r : Result (List ObservedTransaction) × W) : Type 0 where
    all_copied :
        (observed : List ObservedTransaction)
        → r.0 ≡ ok observed
        → Copies index txs observed
        → Looped index txs r
    one_refused :
        (cause : GoError)
        → r.0 ≡ err (no_sender cause)
        → Refused cause index txs
        → Looped index txs r

  pub observe_transactions-Looped :
      (index : ℕ) (txs : List EthereumTransaction) (w : W)
      → Looped index txs (observe_transactions lib node hash index txs w)
  unfolding observe_transactions ◌>>=◌ observed_transaction
  observe_transactions-Looped index [] w = all_copied [] refl (copies_none index)
  observe_transactions-Looped index (tx ∷ txs) w =
      sender (λ after. observe_transactions-Looped (index + 1) txs after)
        (node.transaction_sender tx hash index w) refl
    where
      grow : Bytes → List ObservedTransaction → Action W (List ObservedTransaction)
      grow s observed = pure (observed_transaction lib tx s ∷ observed)

      rest :
          (s : Bytes)
          → (node.transaction_sender tx hash index w).0 ≡ ok s
          → (r : Result (List ObservedTransaction) × W) → Looped (index + 1) txs r
          → Looped index (tx ∷ txs) (proceed r.0 (grow s) r.1)
      rest s at (r, after) (all_copied observed same copies) =
          rw same (all_copied _ refl (copies_next index tx txs observed w s at copies))
      rest s at (r, after) (one_refused cause same refused) =
          rw same (one_refused cause refl (refused_later index tx txs refused))

      sender :
          ((after : W)
            → Looped (index + 1) txs (observe_transactions lib node hash (index + 1) txs after))
          → (answer : Result Bytes × W) → node.transaction_sender tx hash index w ≡ answer
          → Looped index (tx ∷ txs) (
              (wrapping "failed to recover sender for transaction %s" (λ (_ : W). answer) >>= λ s.
              observe_transactions lib node hash (index + 1) txs >>= grow s)
                w)
      sender again (ok s, after) at =
          rest s (rw at refl) (observe_transactions lib node hash (index + 1) txs after)
            (again after)
      sender again (err e, after) at = one_refused e refl (refused_here index tx txs w (rw at refl))
