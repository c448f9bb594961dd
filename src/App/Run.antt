-- ===== src/App/Run.antt =====
-- `Run` of internal/app/application.go: what is opened, in which order, and what is closed again.
pub mod Closing
use chain_watch.Prelude.{ℕ, String, true, List, if◌then◌else◌}
use chain_watch.Errors.{GoError, Result, ok, err, is_nil, wrapped, rpc, new_domain_error}
use chain_watch.Effects.{Action, give, wrapping, ◌>>=◌, ◌>>◌}
use chain_watch.Indexer.Reorg.{ReorgPersistence}
use chain_watch.Rpc.{RetryPolicy}
use chain_watch.Rpc.Config.{new_resilient_policy}
use chain_watch.Config.{Config, Libraries, rpc_config, validate}
use chain_watch.Ethereum.Client.{new_ethereum_client}
use chain_watch.Lifecycle.{Service}
use chain_watch.App.{Node, determine_start_block, ethereum_rpc_config, services}

-- Dialing the node, the pool of connections, the client behind retries, the persistence, and the
-- group of services that runs from a start block.
pub record Surroundings (W : Type 0) : Type 0 where
  pub dial : String → Action W (Unit {0})
  pub close_client : W → W
  pub open_pool : String → Action W (Unit {0})
  pub close_pool : W → W
  pub ping : Action W (Unit {0})
  pub node : RetryPolicy → Node W
  pub persistence : ReorgPersistence W
  pub run_services : ℕ → List Service → W → GoError × W

-- `defer release()` in front of the body.
unfoldable pub deferring : {W A : Type 0} → (W → W) → Action W A → Action W A
deferring release m w = let (r, after) = m w in (r, release after)

-- An `error` as a result.
abbrev pub as_result : GoError → Result (Unit {0})
as_result e = if is_nil e then ok tt else err e

module _ {W : Type 0} (l : Libraries) (s : Surroundings W) where
  unfoldable pub new_client : String → Action W (Unit {0})
  new_client url w = let (r, after) = s.dial url w in (new_ethereum_client r, after)

  unfoldable pub run_group_from : Config → ℕ → Action W (Unit {0})
  run_group_from c start w =
      let (e, after) = s.run_services start (services c) w in (as_result e, after)

  -- Behind the pool.
  unfoldable pub with_pool : Config → RetryPolicy → Action W (Unit {0})
  with_pool c policy = do
    wrapping "connect to PostgreSQL" s.ping
    start ←
        determine_start_block (s.node policy) s.persistence c.confirmation_depth c.max_reorg_depth
    run_group_from c start

  -- Behind the client.
  unfoldable pub with_client : Config → Action W (Unit {0})
  with_client c = do
    policy ←
        wrapping "create resilient Ethereum client"
          (give (new_resilient_policy true (ethereum_rpc_config (rpc_config c))))
    wrapping "create PostgreSQL pool" (s.open_pool c.database_url)
    deferring s.close_pool (with_pool c policy)

  unfoldable pub run : Config → Action W (Unit {0})
  run c w =
      if is_nil (validate l c)
      then (wrapping "create Ethereum client" (new_client c.ethereum_rpc_url)
            >> deferring s.close_client (with_client c))
          w
      else (err (wrapped "validate configuration" (validate l c)), w)
