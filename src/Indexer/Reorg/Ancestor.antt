-- ===== src/Indexer/Reorg/Ancestor.antt =====
-- `Reconcile` around the search for the common ancestor.
use chain_watch.Prelude.{
  ℕ, ◌≡◌, refl, ◌≢◌, ◌∙◌, sym, ap, inl, inr, Option, none, some, ◌==◌, nat_eq, string_eq,
  if◌then◌else◌, Bool-cases, beq_eq, ne_of_beq, arith,
}
use chain_watch.Effects.Ends.{Ends, Ends-pure, Ends-fail, Ends-wrapping, Ends-bind, Ends-mono}
use chain_watch.Domain.{BlockHash, BlockCheckpoint}
use chain_watch.Indexer.Reorg.{
  CanonicalBlockClient, ReorgPersistence, ReorgResult, nothing_stored, verified, rolled_back,
  verify, verify_found, reconcile,
}
use chain_watch.Indexer.Reorg.Laws.{
  View, SameView, SameView-refl, SameView-trans, FollowsChain, RolledBack, Stores, Nearest,
}
use chain_watch.Indexer.Reorg.Search.{get_block-Ends, find_ancestor-Ends}

-- How a reconciliation that returns `r` came out, by what the store showed before and shows after.
pub data Reconciled {W : Type 0} (v : View W) (chain : ℕ → BlockHash) (max_depth : ℕ) (before : W)
    (r : ReorgResult) (after : W) : Type 0 where
  empty :
      r ≡ nothing_stored
      → v.checkpoint before ≡ none
      → SameView v before after
      → Reconciled v chain max_depth before r after
  canonical :
      (c : BlockCheckpoint)
      → r ≡ verified c
      → v.checkpoint before ≡ some c
      → chain c.number ≡ c.hash
      → v.checkpoint after ≡ some c
      → ((n : ℕ) → v.hash_at after n ≡ (if n == c.number then some c.hash else v.hash_at before n))
      → Reconciled v chain max_depth before r after
  reorganized :
      (c ancestor : BlockCheckpoint)
      → r ≡ rolled_back c ancestor
      → v.checkpoint before ≡ some c
      → chain c.number ≢ c.hash
      → Nearest v chain max_depth c ancestor before
      → RolledBack v ancestor before after
      → Reconciled v chain max_depth before r after

module _ {W : Type 0} {v : View W} {chain : ℕ → BlockHash} {client : CanonicalBlockClient W}
    {store : ReorgPersistence W} (node : FollowsChain v chain client) (laws : Stores v store) where
  ensure-Reconciled :
      (max_depth : ℕ) (c : BlockCheckpoint) (w₀ w after : W)
      → SameView v w₀ w
      → v.checkpoint w₀ ≡ some c
      → chain c.number ≡ c.hash
      → v.checkpoint after ≡ v.checkpoint w
      → ((n : ℕ) → v.hash_at after n ≡ (if n == c.number then some c.hash else v.hash_at w n))
      → Reconciled v chain max_depth w₀ (verified c) after
  ensure-Reconciled max_depth c w₀ w after same at on kept recorded =
      canonical c refl at on (kept ∙ same.same_checkpoint ∙ at)
        λ n. recorded n ∙ ap (λ h. if n == c.number then some c.hash else h) (same.same_hash n)

  verify-Ends :
      (max_depth : ℕ) (c : BlockCheckpoint) (w₀ w : W)
      → SameView v w₀ w
      → v.checkpoint w₀ ≡ some c
      → Ends (Reconciled v chain max_depth w₀) (SameView v w₀) (verify client store max_depth c w)
  unfolding verify
  verify-Ends max_depth c w₀ w same at =
      Ends-bind (λ block after. (block.hash ≡ chain c.number) × SameView v w₀ after) _ _ w
        (Ends-wrapping _ _ w (
          Ends-mono _ (get_block-Ends node laws c.number w)
            (λ block after got. (got.0, SameView-trans same got.1))
            (λ after kept. SameView-trans same kept)))
        λ block w₁ (on_chain, same₁). elim (Bool-cases (block.hash == c.hash)) [
          | inl equal ↦ rw equal (
              Ends-bind (λ u after. Reconciled v chain max_depth w₀ (verified c) after) _ _ w₁
                (Ends-wrapping _ _ w₁ (record {
                  returns = λ u done.
                      ensure-Reconciled max_depth c w₀ w₁ _ same₁ at
                        (sym on_chain ∙ beq_eq block.hash c.hash equal)
                        (laws.ensure_checkpoint c w₁) (λ n. laws.ensure_ok c w₁ n done);
                  fails = λ e failed. SameView-trans same₁ (laws.ensure_err c w₁ e failed);
                }))
                (λ u after done. Ends-pure _ after done))
          | inr differ ↦ rw differ (
              Ends-mono _
                (find_ancestor-Ends node laws max_depth c.number max_depth c w₀ w₁ same₁
                  (omega arith) refl (λ n low high. absurd (omega arith)))
                (λ r after (ancestor, result, nearest, rolled).
                  reorganized c ancestor result at
                    (λ e. ne_of_beq block.hash c.hash differ (on_chain ∙ e)) nearest rolled)
                (λ after kept. kept))
        ]

  verify_found-Ends :
      (max_depth : ℕ) (found : Option BlockCheckpoint) (w₀ w : W)
      → SameView v w₀ w
      → v.checkpoint w₀ ≡ found
      → Ends
          (Reconciled v chain max_depth w₀)
          (SameView v w₀)
          (verify_found client store max_depth found w)
  unfolding verify_found
  verify_found-Ends max_depth none w₀ w same at = Ends-pure _ w (empty refl at same)
  verify_found-Ends max_depth (some c) w₀ w same at = verify-Ends max_depth c w₀ w same at

  -- What `Reconcile` returns, against the canonical chain: nothing where no checkpoint is stored; the
  -- checkpoint, recorded, where it is on the chain; otherwise the nearest recorded ancestor on the
  -- chain, at most `max_depth` below, with the store rolled back to it. Where it fails, the store
  -- shows what it showed before.
  pub reconcile-Ends :
      (max_depth : ℕ) (w : W)
      → Ends (Reconciled v chain max_depth w) (SameView v w) (reconcile client store max_depth w)
  unfolding reconcile
  reconcile-Ends max_depth w = elim (Bool-cases (max_depth == 0)) [
    | inl none_allowed ↦ rw none_allowed (Ends-fail _ w (SameView-refl w))
    | inr allowed ↦ rw allowed (
        Ends-bind (λ found after. (found ≡ v.checkpoint w) × SameView v w after) _ _ w
          (Ends-wrapping _ _ w (record {
            returns = λ found got. (laws.load_ok w found got, laws.load_same w);
            fails = λ e failed. laws.load_same w;
          }))
          λ found w₁ (at, same). verify_found-Ends max_depth found w w₁ same (sym at))
  ]
