-- ===== src/Indexer/Reorg/Search.antt =====
-- The search for the common ancestor.
use chain_watch.Prelude.{
  ℕ, zero, suc, ◌+◌, ◌≤◌, ◌<◌, ◌≡◌, refl, ◌≢◌, ◌∙◌, sym, ap, inl, inr, Option, none, some, ◌==◌,
  nat_eq, string_eq, leb, if◌then◌else◌, Bool-cases, beq_eq, ne_of_beq, arith,
}
use native.Mathlib.Decide.{dec_lt}
use chain_watch.Effects.{Action}
use chain_watch.Effects.Ends.{Ends, Ends-pure, Ends-fail, Ends-wrapping, Ends-bind, Ends-mono}
use chain_watch.Domain.{BlockHash, BlockCheckpoint}
use chain_watch.Indexer.Reorg.{
  CanonicalBlockClient, ReorgPersistence, ReorgResult, rolled_back, too_deep, history_unavailable,
  roll_back, compare_block, find_ancestor,
}
use chain_watch.Indexer.Reorg.Laws.{
  View, SameView, SameView-trans, FollowsChain, RolledBack, Stores, Nearest,
}

module _ {W : Type 0} {v : View W} {chain : ℕ → BlockHash} {client : CanonicalBlockClient W}
    {store : ReorgPersistence W} (node : FollowsChain v chain client) (laws : Stores v store) where
  pub get_block-Ends :
      (n : ℕ) (w : W)
      → Ends
          (λ block after. (block.hash ≡ chain n) × SameView v w after)
          (SameView v w)
          (client.get_observed_block_by_number n w)
  get_block-Ends n w = record {
    returns = λ block got. (node.canonical_hash n w block got, node.get_block_same n w);
    fails = λ e failed. node.get_block_same n w;
  }

  load_hash-Ends :
      (n : ℕ) (w : W)
      → Ends
          (λ found after. (found ≡ v.hash_at w n) × SameView v w after)
          (SameView v w)
          (store.load_indexed_block_hash n w)
  load_hash-Ends n w = record {
    returns = λ found got. (laws.hash_ok n w found got, laws.hash_same n w);
    fails = λ e failed. laws.hash_same n w;
  }

  RolledBack-of_SameView :
      {ancestor : BlockCheckpoint} {a b c : W}
      → SameView v a b
      → RolledBack v ancestor b c
      → RolledBack v ancestor a c
  RolledBack-of_SameView {ancestor} same rolled = record {
    moved = rolled.moved;
    removed = λ n.
        rolled.removed n ∙ ap (λ h. if leb n ancestor.number then h else none) (same.same_hash n);
  }

  roll_back-Ends :
      (checkpoint ancestor : BlockCheckpoint) (w₀ w : W)
      → SameView v w₀ w
      → Ends
          (λ r after. (r ≡ rolled_back checkpoint ancestor) × RolledBack v ancestor w₀ after)
          (SameView v w₀)
          (roll_back client store checkpoint ancestor w)
  unfolding roll_back
  roll_back-Ends checkpoint ancestor w₀ w same =
      Ends-bind (λ _ after. RolledBack v ancestor w₀ after) _ _ w
        (Ends-wrapping _ _ w (record {
          returns = λ u done. RolledBack-of_SameView same (laws.rollback_ok ancestor w done);
          fails = λ e failed. SameView-trans same (laws.rollback_err ancestor w e failed);
        }))
        λ u after rolled. Ends-pure _ after (refl, rolled)

  -- The blocks from `height` up to the checkpoint are recorded and are not on the chain.
  abbrev pub Orphaned : BlockCheckpoint → ℕ → W → Type 0
  Orphaned checkpoint height w =
      (n : ℕ)
      → height ≤ n
      → n < checkpoint.number
      → (h : BlockHash) × (v.hash_at w n ≡ some h) × (chain n ≢ h)

  Orphaned-suc :
      (height : ℕ) (h : BlockHash) (checkpoint : BlockCheckpoint) (w : W)
      → v.hash_at w height ≡ some h
      → chain height ≢ h
      → Orphaned checkpoint (suc height) w
      → Orphaned checkpoint height w
  Orphaned-suc height h checkpoint w at off orphaned n low high = elim (dec_lt height n) [
    | yes above ↦ orphaned n above high
    | no not_above ↦
        let here : height ≡ n = omega arith in
        (h, ap (v.hash_at w) (sym here) ∙ at, λ e. off (ap chain here ∙ e))
  ]

  -- A reorganization of `checkpoint` that started in `before` ended in `after`.
  abbrev pub RolledTo : ℕ → BlockCheckpoint → W → ReorgResult → W → Type 0
  RolledTo max_depth checkpoint before r after =
      (ancestor : BlockCheckpoint) × (r ≡ rolled_back checkpoint ancestor)
      × Nearest v chain max_depth checkpoint ancestor before
      × RolledBack v ancestor before after

  compare_block-Ends :
      (height max_depth : ℕ) (checkpoint : BlockCheckpoint) (next : Action W ReorgResult) (w₀ w : W)
      (found : Option BlockHash)
      → found ≡ v.hash_at w₀ height
      → SameView v w₀ w
      → height < checkpoint.number
      → checkpoint.number ≤ height + max_depth
      → Orphaned checkpoint (suc height) w₀
      → ((after : W)
          → SameView v w₀ after
          → Orphaned checkpoint height w₀
          → Ends (RolledTo max_depth checkpoint w₀) (SameView v w₀) (next after))
      → Ends
          (RolledTo max_depth checkpoint w₀)
          (SameView v w₀)
          (compare_block client store height checkpoint next found w)
  unfolding compare_block history_unavailable
  compare_block-Ends height max_depth checkpoint next w₀ w none at same low near orphaned rest =
      Ends-fail _ w same
  compare_block-Ends height max_depth checkpoint next w₀ w (some h) at same low near orphaned rest =
      Ends-bind (λ block after. (block.hash ≡ chain height) × SameView v w₀ after) _ _ w
        (Ends-wrapping _ _ w (
          Ends-mono _ (get_block-Ends height w)
            (λ block after got. (got.0, SameView-trans same got.1))
            (λ after kept. SameView-trans same kept)))
        λ block w₁ (on_chain, same₁). elim (Bool-cases (block.hash == h)) [
          | inl equal ↦ rw equal (
              Ends-mono _
                (roll_back-Ends checkpoint (record { number = height; hash = h }) w₀ w₁ same₁)
                (λ r after (result, rolled). (
                  record { number = height; hash = h },
                  result,
                  record {
                    below = low;
                    within = near;
                    stored = sym at;
                    on_chain = sym on_chain ∙ beq_eq block.hash h equal;
                    orphaned = orphaned;
                  },
                  rolled,
                ))
                (λ after kept. kept))
          | inr differ ↦ rw differ (
              rest w₁ same₁ (
                Orphaned-suc height h checkpoint w₀ (sym at)
                  (λ same_hash. ne_of_beq block.hash h differ (on_chain ∙ same_hash)) orphaned))
        ]

  pub find_ancestor-Ends :
      (rounds height max_depth : ℕ) (checkpoint : BlockCheckpoint) (w₀ w : W)
      → SameView v w₀ w
      → height ≤ checkpoint.number
      → height + max_depth ≡ checkpoint.number + rounds
      → Orphaned checkpoint height w₀
      → Ends
          (RolledTo max_depth checkpoint w₀)
          (SameView v w₀)
          (find_ancestor client store rounds height checkpoint w)
  unfolding find_ancestor too_deep
  find_ancestor-Ends zero height max_depth checkpoint w₀ w same low sum orphaned =
      Ends-fail _ w same
  find_ancestor-Ends (suc rounds) zero max_depth checkpoint w₀ w same low sum orphaned =
      Ends-fail _ w same
  find_ancestor-Ends (suc rounds) (suc height) max_depth checkpoint w₀ w same low sum orphaned =
      Ends-bind (λ found after. (found ≡ v.hash_at w₀ height) × SameView v w₀ after) _ _ w
        (Ends-wrapping _ _ w (
          Ends-mono _ (load_hash-Ends height w)
            (λ found after got. (got.0 ∙ same.same_hash height, SameView-trans same got.1))
            (λ after kept. SameView-trans same kept)))
        λ found w₁ (at, same₁).
          compare_block-Ends height max_depth checkpoint _ w₀ w₁ found at same₁ low (omega arith)
            orphaned
            λ after same₂ more.
              find_ancestor-Ends rounds height max_depth checkpoint w₀ after same₂ (omega arith)
                (omega arith) more
