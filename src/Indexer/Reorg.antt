-- ===== src/Indexer/Reorg.antt =====
-- internal/indexer/reorg.go: the reorg manager.
pub mod Laws
pub mod Search
pub mod Ancestor
use chain_watch.Prelude.{
  ℕ, zero, suc, ◌+◌, Bool, true, false, Option, none, some, ◌==◌, nat_eq, string_eq, if◌then◌else◌,
}
use chain_watch.Errors.{
  validation, chain_reorg, reorg_too_deep, reorg_history_unavailable, sentinel, text,
  new_domain_error,
}
use chain_watch.Effects.{Action, pure, fail, wrapping, ◌>>=◌, ◌>>◌}
use chain_watch.Domain.{BlockHash, BlockCheckpoint, ObservedBlock}
use chain_watch.Indexer.{BlockPersistence}

pub record CanonicalBlockClient (W : Type 0) : Type 0 where
  pub get_observed_block_by_number : ℕ → Action W ObservedBlock

-- Go's `(hash, exists, err)` is a result of an option.
pub record ReorgPersistence (W : Type 0) : Type 0 where
  pub block_persistence : BlockPersistence W
  pub open block_persistence use *
  pub ensure_indexed_block : BlockCheckpoint → Action W (Unit {0})
  pub load_indexed_block_hash : ℕ → Action W (Option BlockHash)
  pub rollback_to : BlockCheckpoint → Action W (Unit {0})

-- The zero value of `checkpoint` and `previous_checkpoint` is `none`.
pub record ReorgResult : Type 0 where
  pub checkpoint : Option BlockCheckpoint
  pub previous_checkpoint : Option BlockCheckpoint
  pub exists : Bool
  pub reorg_detected : Bool

abbrev pub nothing_stored : ReorgResult
nothing_stored = record {
  checkpoint = none;
  previous_checkpoint = none;
  exists = false;
  reorg_detected = false;
}

abbrev pub verified : BlockCheckpoint → ReorgResult
verified checkpoint = record {
  checkpoint = some checkpoint;
  previous_checkpoint = none;
  exists = true;
  reorg_detected = false;
}

abbrev pub rolled_back : BlockCheckpoint → BlockCheckpoint → ReorgResult
rolled_back checkpoint ancestor = record {
  checkpoint = some ancestor;
  previous_checkpoint = some checkpoint;
  exists = true;
  reorg_detected = true;
}

module _ {W : Type 0} (client : CanonicalBlockClient W) (store : ReorgPersistence W) where
  unfoldable pub too_deep : Action W ReorgResult
  too_deep = fail (
      new_domain_error reorg_too_deep "find common ancestor for checkpoint %d"
        (sentinel chain_reorg))

  unfoldable pub history_unavailable : Action W ReorgResult
  history_unavailable = fail (
      new_domain_error reorg_history_unavailable "find common ancestor at block %d"
        (sentinel chain_reorg))

  unfoldable pub roll_back : BlockCheckpoint → BlockCheckpoint → Action W ReorgResult
  roll_back checkpoint ancestor = do
    wrapping "roll back to common ancestor %d" (store.rollback_to ancestor)
    pure (rolled_back checkpoint ancestor)

  -- What a round does with the stored hash; `next` is the round after it (`continue`).
  unfoldable pub compare_block :
      ℕ → BlockCheckpoint → Action W ReorgResult → Option BlockHash → Action W ReorgResult
  compare_block height checkpoint next none = history_unavailable
  compare_block height checkpoint next (some stored_hash) = do
    canonical ← wrapping "fetch canonical block %d" (client.get_observed_block_by_number height)
    if canonical.hash == stored_hash
        then roll_back checkpoint (record { number = height; hash = stored_hash })
        else next

  -- The loop over `depth`, by the number of rounds that `maxDepth` leaves; `height` falls with it.
  unfoldable pub find_ancestor : ℕ → ℕ → BlockCheckpoint → Action W ReorgResult
  find_ancestor zero height checkpoint = too_deep
  find_ancestor (suc rounds) zero checkpoint = too_deep
  find_ancestor (suc rounds) (suc height) checkpoint =
      let next = find_ancestor rounds height checkpoint in
      wrapping "load indexed block %d" (store.load_indexed_block_hash height) >>= λ stored.
      compare_block height checkpoint next stored

  unfoldable pub verify : ℕ → BlockCheckpoint → Action W ReorgResult
  verify max_depth checkpoint = do
    canonical ←
        wrapping "fetch canonical block %d for reorg verification"
          (client.get_observed_block_by_number checkpoint.number)
    if canonical.hash == checkpoint.hash
        then (do
          wrapping "record checkpoint history" (store.ensure_indexed_block checkpoint)
          pure (verified checkpoint))
        else find_ancestor max_depth checkpoint.number checkpoint

  unfoldable pub verify_found : ℕ → Option BlockCheckpoint → Action W ReorgResult
  unfolding verify
  verify_found max_depth none = pure nothing_stored
  verify_found max_depth (some checkpoint) = verify max_depth checkpoint

  unfoldable pub reconcile : ℕ → Action W ReorgResult
  unfolding verify_found
  reconcile max_depth =
      if max_depth == 0
      then fail (
          new_domain_error validation "validate maximum reorg depth"
            (text "maximum reorg depth must be greater than zero"))
      else do
        found ← wrapping "load checkpoint for reorg verification" store.load
        verify_found max_depth found
