-- ===== src/Ethereum/Stack/Interfaces.antt =====
-- The Ethereum client keeps what the indexers rely on.
use chain_watch.Prelude.{ℕ, ◌+◌, ◌≡◌, ◌∙◌, refl, sym, ap, some, List, [], ◌∷◌}
use chain_watch.Errors.{GoError, Result, ok, err, rpc}
use chain_watch.Domain.{Erc20Transfer, BlockTransferIndex, ObservedBlock}
use chain_watch.Domain.Transfers.{Bytes, GoEthereum}
use chain_watch.Rpc.Client.{block_client}
use chain_watch.Indexer.History.{AnswersNumbers, Commits}
use chain_watch.Indexer.{BlockPersistence}
use chain_watch.Ethereum.{EthereumTransaction, EthereumNode, Abi}
use chain_watch.Ethereum.Client.{
  indexed, decode_logs, observe_transactions, observed_block, transfer_query,
  get_observed_block_by_number, get_erc20_transfers_by_block,
}
use chain_watch.Ethereum.Client.Answers.{
  Answered, answered_block, answered_no_sender, answered_no_block, get_observed_block-Answered,
}
use chain_watch.Effects.Keeping.{
  Keeps, pure-Keeps, give-Keeps, wrapping-Keeps, classifying-Keeps, bind-Keeps,
}
use chain_watch.Effects.Ends.{Ends-bind, Ends-classifying, Ends-give}
use chain_watch.Indexer.History.{KeepsHistory}
use chain_watch.Ethereum.Stack.{ethereum_backend, AnswersAsked, QuietNode}

module _ (lib : GoEthereum) (abi : Abi) {W : Type 0} (node : EthereumNode W) where
  indexed-number :
      (block : ObservedBlock) (decoded : Result (List Erc20Transfer)) (index : BlockTransferIndex)
      → indexed block decoded ≡ ok index
      → index.block_number ≡ block.number
  indexed-number block (ok transfers) index h =
      let same : record {
        block_number = block.number;
        block_hash = block.hash;
        parent_hash = block.parent_hash;
        transfers = transfers;
      }
          ≡ index =
        cc in
      rw (← same) refl
  indexed-number block (err e) index h = cc

  transfers-number :
      (block : ObservedBlock) (w : W) (index : BlockTransferIndex)
      → (get_erc20_transfers_by_block lib node block w).0 ≡ ok index
      → index.block_number ≡ block.number
  unfolding get_erc20_transfers_by_block
  transfers-number block w index h =
      (Ends-classifying {Q = λ i _. i.block_number ≡ block.number} {E = λ _. Unit} rpc _ _ w (
          Ends-bind (λ _ _. Unit) _ _ w (record { returns = λ logs at. tt; fails = λ e at. tt })
            λ logs after _.
              Ends-give (indexed block (decode_logs lib logs)) after
                (λ i at. indexed-number block _ i at) tt)).returns
        index h

  same_number : (a b : ObservedBlock) → ok a ≡ ok b → a.number ≡ b.number
  same_number a b e = let same : a ≡ b = cc in ap (λ (x : ObservedBlock). x.number) same

  not_both : (a : ObservedBlock) (e : GoError) → ok a ≡ err e → ⊥
  not_both a e h = cc

  block-number :
      AnswersAsked node
      → (n : ℕ) (w : W) (block : ObservedBlock)
      → (get_observed_block_by_number lib node n w).0 ≡ ok block
      → block.number ≡ n
  block-number asked n w block h = go (get_observed_block-Answered lib node n w).0
    where
      go :
          Answered lib node
            (node.block_by_number (some n) w)
            (get_observed_block_by_number lib node n w)
          → block.number ≡ n
      go (answered_block b transactions at copies same) =
          same_number block _ (sym h ∙ same) ∙ asked.asked_number n w b at
      go (answered_no_sender b cause e at refused same _) = absurd (not_both block e (sym h ∙ same))
      go (answered_no_block cause e at same _) =
          absurd (not_both block e (sym h ∙ ap (λ (r : Result ObservedBlock × W). r.0) same))

  pub ethereum_backend-AnswersNumbers :
      AnswersAsked node → AnswersNumbers (block_client (ethereum_backend lib abi node))
  unfolding block_client ethereum_backend
  ethereum_backend-AnswersNumbers asked = record {
    number_of_block = block-number asked;
    number_of_index = transfers-number;
  }

  module _ {V : Type 0} (view : W → V) (quiet : QuietNode node view) where
    transactions-Keeps :
        (hash : Bytes) (index : ℕ) (txs : List EthereumTransaction)
        → Keeps view (observe_transactions lib node hash index txs)
    unfolding observe_transactions
    transactions-Keeps hash index [] = pure-Keeps view []
    transactions-Keeps hash index (tx ∷ txs) =
        bind-Keeps view _ _ (wrapping-Keeps view _ _ (quiet.sender_keeps tx hash index)) λ sender.
          bind-Keeps view _ _ (transactions-Keeps hash (index + 1) txs) λ rest. pure-Keeps view _

    pub get_block-Keeps : (n : ℕ) → Keeps view (get_observed_block_by_number lib node n)
    unfolding get_observed_block_by_number observed_block
    get_block-Keeps n = classifying-Keeps view _ _ _ (
        bind-Keeps view _ _ (wrapping-Keeps view _ _ (quiet.block_keeps (some n))) λ block.
          bind-Keeps view _ _ (transactions-Keeps block.hash 0 block.transactions)
            λ transactions. pure-Keeps view _)

    pub get_transfers-Keeps :
        (block : ObservedBlock) → Keeps view (get_erc20_transfers_by_block lib node block)
    unfolding get_erc20_transfers_by_block
    get_transfers-Keeps block = classifying-Keeps view _ _ _ (
        bind-Keeps view _ _ (wrapping-Keeps view _ _ (quiet.logs_keep (transfer_query lib block)))
          λ logs. give-Keeps view _)

  unfoldable pub ethereum_commits :
      (history : W → List BlockTransferIndex) (persistence : BlockPersistence W)
      → QuietNode node history
      → KeepsHistory history persistence
      → Commits (block_client (ethereum_backend lib abi node)) persistence
  unfolding block_client ethereum_backend
  ethereum_commits history persistence quiet store = record {
    history = history;
    history_get_block = get_block-Keeps history quiet;
    history_get_transfers = get_transfers-Keeps history quiet;
    history_load = store.load_keeps;
    history_save_ok = store.save_commits;
    history_save_err = store.failed_save_keeps;
  }
