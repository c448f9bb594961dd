-- ===== src/Ethereum/Client/Fetching.antt =====
-- What GetERC20TransfersByBlock answers.
use chain_watch.Prelude.{◌≡◌, refl, true, List, All}
use chain_watch.Errors.{
  GoError, Sentinel, Result, ok, err, rpc, is, wrapped, classify, classify_error,
}
use chain_watch.Errors.Classify.{classify_error-category, classify_error_keeps}
use chain_watch.Effects.{give, wrapping, classifying, ◌>>=◌}
use chain_watch.Domain.{Erc20Transfer, BlockTransferIndex, ObservedBlock}
use chain_watch.Domain.Transfers.{GoEthereum}
use chain_watch.Ethereum.{Log, EthereumNode}
use chain_watch.Ethereum.Client.{decode_logs, indexed, transfer_query, get_erc20_transfers_by_block}
use chain_watch.Ethereum.Client.Logs.{
  HashesRoundTrip, IsLog, Tells, Malformed, Decoded, decoded, undecoded, decode_logs-Decoded,
}

module _ (lib : GoEthereum) where
  -- What a block's logs are answered with, by the answer of the node.
  pub data Fetched {W : Type 0} (block : ObservedBlock) (answer : Result (List Log) × W)
      (r : Result BlockTransferIndex × W) : Type 0 where
    fetched :
        (logs : List Log) (transfers : List Erc20Transfer)
        → answer.0 ≡ ok logs
        → Tells lib logs transfers
        → r ≡ (
          ok (record {
            block_number = block.number;
            block_hash = block.hash;
            parent_hash = block.parent_hash;
            transfers = transfers;
          }),
          answer.1,
        )
        → Fetched block answer r
    malformed :
        (logs : List Log) (e : GoError)
        → answer.0 ≡ ok logs
        → Malformed lib logs
        → r ≡ (err e, answer.1)
        → is e rpc ≡ true
        → Fetched block answer r
    unanswered :
        (cause e : GoError)
        → answer.0 ≡ err cause
        → r ≡ (err e, answer.1)
        → is e rpc ≡ true
        → ((target : Sentinel) → is cause target ≡ true → is e target ≡ true)
        → Fetched block answer r

  module _ {W : Type 0} (hashes : HashesRoundTrip lib) (node : EthereumNode W) where
    -- If the topics of the logs are hashes and HexToHash undoes Hash.Hex, GetERC20TransfersByBlock
    -- returns the block's number, hash and parent hash with exactly the transfers that the logs of the
    -- node tell of, in their order, from the last 20 bytes of the topics and the number in the data. It
    -- fails only if the node fails or a log of the event does not hold 32 bytes; the error is then one of
    -- ErrRPC, and whatever errors.Is finds in the node's error it finds in it.
    pub get_erc20_transfers_by_block-Fetched :
        (block : ObservedBlock) (w : W)
        → ((logs : List Log)
            → (node.filter_logs (transfer_query lib block) w).0 ≡ ok logs
            → All IsLog logs)
        → Fetched block
            (node.filter_logs (transfer_query lib block) w)
            (get_erc20_transfers_by_block lib node block w)
    unfolding get_erc20_transfers_by_block ◌>>=◌ is
    get_erc20_transfers_by_block-Fetched block w wf =
        go (node.filter_logs (transfer_query lib block) w) wf
      where
        loop :
            (logs : List Log) (after : W) (r : Result (List Erc20Transfer))
            → Decoded lib logs r
            → Fetched block
                (ok logs, after)
                (classify rpc "fetch ERC20 transfer logs" (indexed block r), after)
        loop logs after r (decoded transfers at tells) =
            fetched logs transfers refl tells (rw at refl)
        loop logs after r (undecoded e at real bad) =
            malformed logs (classify_error e rpc "fetch ERC20 transfer logs") refl bad (rw at refl)
              (classify_error-category e rpc "fetch ERC20 transfer logs" real)

        go :
            (answer : Result (List Log) × W)
            → ((logs : List Log) → answer.0 ≡ ok logs → All IsLog logs)
            → Fetched block answer (
                classifying rpc "fetch ERC20 transfer logs"
                  (do
                    logs ←
                        wrapping "failed to fetch ERC20 transfer logs for block %s"
                          (λ (_ : W). answer)
                    give (indexed block (decode_logs lib logs)))
                  w)
        go (ok logs, after) wf =
            loop logs after (decode_logs lib logs)
              (decode_logs-Decoded lib hashes logs (wf logs refl))
        go (err cause, after) wf =
            unanswered cause _ refl refl (classify_error-category failed rpc _ refl)
              (classify_error_keeps failed rpc "fetch ERC20 transfer logs" refl)
          where
            failed : GoError
            failed = wrapped "failed to fetch ERC20 transfer logs for block %s" cause
