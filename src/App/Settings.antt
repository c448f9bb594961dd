-- ===== src/App/Settings.antt =====
-- A configuration that is loaded, against the checks of the parts that internal/app gives it to.
use chain_watch.Prelude.{
  ◌≤◌, ◌≡◌, refl, String, true, false, ◌==◌, string_eq, nat_eq, Bool-cases, inl, inr, ℤ,
  not_positive, pos, negsuc, arith,
}
use chain_watch.Errors.{is_nil, ok}
use chain_watch.Rpc.Config.{positive, validate_config, policy_of, new_resilient_policy}
use chain_watch.Indexer.Concurrent.Entry.{workers}
use chain_watch.Lifecycle.{validate, validate_services}
use chain_watch.Config.{Config, RpcConfig, Libraries, rpc_config}
use chain_watch.Config.Environment.{EnvironmentLookup, load_config}
use chain_watch.Config.Checks.{ValidRpc, Valid}
use chain_watch.Config.Loading.{load_config-Outcome}
use chain_watch.App.{ethereum_rpc_config, services}

-- No part of the application refuses its settings.
pub record Accepted (trim_space : String → String) (c : Config) : Type 0 where
  pub policy :
      new_resilient_policy true (ethereum_rpc_config (rpc_config c))
      ≡ ok (policy_of (ethereum_rpc_config (rpc_config c)))
  pub indexed : 1 ≤ workers c.worker_count
  pub polled : not_positive c.poll_interval ≡ false
  pub reorged : (c.max_reorg_depth == 0) ≡ false
  pub grouped : is_nil (validate trim_space c.shutdown_timeout (services c)) ≡ true

positive_if : (n : ℤ) → not_positive n ≡ false → positive n ≡ true
positive_if (pos n) h = ground arith
positive_if (negsuc n) h = cc

pub valid_policy :
    (c : RpcConfig)
    → ValidRpc c
    → new_resilient_policy true (ethereum_rpc_config c) ≡ ok (policy_of (ethereum_rpc_config c))
unfolding new_resilient_policy validate_config ethereum_rpc_config
valid_policy c valid =
    rw
      (
        positive_if c.max_attempts valid.attempts,
        positive_if c.initial_backoff valid.initial,
        valid.ordered,
        positive_if c.requests_per_second valid.requests,
        positive_if c.burst valid.bursts,
      )
      refl

enough_workers : (n : ℤ) → not_positive n ≡ false → 1 ≤ workers n
enough_workers (pos n) h = ground arith
enough_workers (negsuc n) h = cc

module _ (l : Libraries) (indexer : (l.trim_space "indexer" == "") ≡ false)
    (http : (l.trim_space "HTTP server" == "") ≡ false)
    (pprof : (l.trim_space "pprof server" == "") ≡ false) where
  services-valid :
      (c : Config)
      → not_positive c.shutdown_timeout ≡ false
      → is_nil (validate l.trim_space c.shutdown_timeout (services c)) ≡ true
  unfolding validate validate_services services
  services-valid c timeout = elim (Bool-cases (c.profiling_address == "")) [
    | inl off ↦ rw (timeout, off, indexer, http) refl
    | inr on ↦ rw (timeout, on, indexer, http, pprof) refl
  ]

  -- With names that are not blank, a configuration that is loaded is one that no part of the application
  -- refuses: the RPC client takes its policy from it, the concurrent indexer has a worker, the poll
  -- interval is positive, reorgs have a depth, and the group of services is valid.
  pub load_config-Accepted :
      (environment : EnvironmentLookup) (c : Config)
      → load_config l environment ≡ ok c
      → Accepted l.trim_space c
  load_config-Accepted environment c loaded =
      let valid : Valid l c = rw loaded at (load_config-Outcome l environment) in
      record {
        policy = valid_policy (rpc_config c) valid.rpc;
        indexed = enough_workers c.worker_count valid.workers;
        polled = valid.poll;
        reorged = valid.reorgs;
        grouped = services-valid c valid.shutdown;
      }
