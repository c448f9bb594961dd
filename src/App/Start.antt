-- ===== src/App/Start.antt =====
-- The block that determineStartBlock of internal/app gives.
use chain_watch.Prelude.{ℕ, ◌+◌, ◌-◌, ◌≡◌, refl, none, some, arith}
use chain_watch.Errors.{Result, ok}
use chain_watch.Effects.Ends.{Ends, Ends-pure, Ends-wrapping, Ends-bind}
use chain_watch.Domain.{BlockHash, BlockCheckpoint, ObservedBlock, u64}
use chain_watch.Indexer.Reorg.{ReorgPersistence, ReorgResult, nothing_stored}
use chain_watch.Indexer.Reorg.Laws.{View, SameView, SameView-trans, FollowsChain, Stores}
use chain_watch.Indexer.Reorg.Ancestor.{Reconciled, empty, canonical, reorganized, reconcile-Ends}
use chain_watch.App.{Node, start_behind, determine_start_block}

-- Where indexing starts: behind a stored checkpoint that is on the node's chain, or, with nothing
-- stored, the confirmation depth below a head that the node gave.
pub data Starts {W : Type 0} (v : View W) (chain : ℕ → BlockHash) (node : Node W)
    (confirmation_depth : ℕ) (before : W) (start : ℕ) (after : W) : Type 0 where
  resumes :
      (c : BlockCheckpoint)
      → v.checkpoint after ≡ some c
      → chain c.number ≡ c.hash
      → start ≡ u64 (c.number + 1)
      → Starts v chain node confirmation_depth before start after
  fresh :
      (latest : ObservedBlock) (asked : W)
      → v.checkpoint before ≡ none
      → SameView v before after
      → (node.get_latest_observed_block asked).0 ≡ ok latest
      → start ≡ latest.number - confirmation_depth
      → Starts v chain node confirmation_depth before start after

module _ {W : Type 0} (v : View W) (chain : ℕ → BlockHash) (node : Node W)
    (store : ReorgPersistence W) (follows : FollowsChain v chain node.canonical_client)
    (still : (w : W) → SameView v w (node.get_latest_observed_block w).1)
    (laws : Stores v store) where
  abbrev StartEnds : ℕ → W → Result ℕ × W → Type 0
  StartEnds confirmation_depth w r =
      Ends (Starts v chain node confirmation_depth w) (SameView v w) r

  head-Ends :
      (confirmation_depth : ℕ) (w w₁ : W)
      → v.checkpoint w ≡ none
      → SameView v w w₁
      → StartEnds confirmation_depth w
          (start_behind node store confirmation_depth nothing_stored w₁)
  unfolding start_behind
  head-Ends confirmation_depth w w₁ unset same =
      Ends-bind
        (λ latest after. ((node.get_latest_observed_block w₁).0 ≡ ok latest) × SameView v w after) _
        _ w₁
        (Ends-wrapping _ _ w₁ (record {
          returns = λ latest got. (got, SameView-trans same (still w₁));
          fails = λ e failed. SameView-trans same (still w₁);
        }))
        (λ latest after (got, kept).
          Ends-pure _ after (fresh latest w₁ unset kept got (ground arith)))

  found-Ends :
      (confirmation_depth max_reorg_depth : ℕ) (w w₁ : W) (r : ReorgResult)
      → Reconciled v chain max_reorg_depth w r w₁
      → StartEnds confirmation_depth w (start_behind node store confirmation_depth r w₁)
  unfolding start_behind
  found-Ends confirmation_depth max_reorg_depth w w₁ r (empty result unset same) =
      rw result (head-Ends confirmation_depth w w₁ unset same)
  found-Ends confirmation_depth max_reorg_depth w w₁ r (canonical c result at on kept recorded) =
      rw result (Ends-pure _ w₁ (resumes c kept on refl))
  found-Ends confirmation_depth max_reorg_depth w w₁ r
        (reorganized c a result at off nearest rolled) =
      rw result (Ends-pure _ w₁ (resumes a rolled.moved nearest.on_chain refl))

  -- On a node that follows a chain and a store that keeps the laws of the reorg manager, and where asking
  -- for the head leaves the store as it is: a start block is the one behind the checkpoint that is then
  -- stored, which is on the chain; or, where nothing was stored, the head less the confirmation depth, at
  -- least 0. Where it fails, the store shows what it showed before.
  pub determine_start_block-Ends :
      (confirmation_depth max_reorg_depth : ℕ) (w : W)
      → Ends
          (Starts v chain node confirmation_depth w)
          (SameView v w)
          (determine_start_block node store confirmation_depth max_reorg_depth w)
  unfolding determine_start_block
  determine_start_block-Ends confirmation_depth max_reorg_depth w =
      Ends-bind (Reconciled v chain max_reorg_depth w) _ _ w
        (Ends-wrapping _ _ w (reconcile-Ends follows laws max_reorg_depth w))
        (λ r w₁ reconciled. found-Ends confirmation_depth max_reorg_depth w w₁ r reconciled)
