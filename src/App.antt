-- ===== src/App.antt =====
-- internal/app/application.go: how the parts are put together.
pub mod Start
pub mod Settings
pub mod Run
use chain_watch.Prelude.{
  ℕ, ◌+◌, ◌-◌, String, Bool, true, false, Option, none, some, List, [], ◌∷◌, ◌++◌, ◌==◌, string_eq,
  ltb, ℤ, if◌then◌else◌,
}
use chain_watch.Effects.{Action, pure, wrapping, ◌>>=◌}
use chain_watch.Domain.{BlockCheckpoint, ObservedBlock, u64}
use chain_watch.Indexer.Reorg.{CanonicalBlockClient, ReorgPersistence, ReorgResult, reconcile}
use chain_watch.Rpc.{RpcResilienceConfig}
use chain_watch.Config.{Config, RpcConfig}
use chain_watch.Lifecycle.{Service}

-- The client of determineStartBlock.
pub record Node (W : Type 0) : Type 0 where
  pub get_latest_observed_block : Action W ObservedBlock
  pub canonical_client : CanonicalBlockClient W

-- `Checkpoint.Number`; a checkpoint that is not set has number 0.
abbrev pub number_of : Option BlockCheckpoint → ℕ
number_of none = 0
number_of (some checkpoint) = checkpoint.number

abbrev pub behind_head : ℕ → ObservedBlock → ℕ
behind_head confirmation_depth latest =
    if ltb latest.number confirmation_depth then 0 else latest.number - confirmation_depth

module _ {W : Type 0} (node : Node W) (persistence : ReorgPersistence W) where
  -- The part of determineStartBlock behind Reconcile.
  unfoldable pub start_behind : ℕ → ReorgResult → Action W ℕ
  start_behind confirmation_depth found =
      if found.exists then pure (u64 (number_of found.checkpoint + 1)) else do
        latest ← wrapping "fetch latest Ethereum block" node.get_latest_observed_block
        pure (behind_head confirmation_depth latest)

  unfoldable pub determine_start_block : ℕ → ℕ → Action W ℕ
  determine_start_block confirmation_depth max_reorg_depth =
      wrapping "reconcile Ethereum chain"
        (reconcile node.canonical_client persistence max_reorg_depth)
      >>= start_behind confirmation_depth

-- The fraction of the jitter apart.
unfoldable pub ethereum_rpc_config : RpcConfig → RpcResilienceConfig
ethereum_rpc_config settings = record {
  max_attempts = settings.max_attempts;
  initial_backoff = settings.initial_backoff;
  max_backoff = settings.max_backoff;
  requests_per_second = settings.requests_per_second;
  burst = settings.burst;
}

abbrev profiling_services : Bool → List Service
profiling_services true = []
profiling_services false =
    record { name = "pprof server"; has_run = true; has_shutdown = true } ∷ []

-- The services that Run hands to the group.
unfoldable pub services : Config → List Service
services c =
    record { name = "indexer"; has_run = true; has_shutdown = false }
    ∷ record { name = "HTTP server"; has_run = true; has_shutdown = true }
    ∷ profiling_services (c.profiling_address == "")
