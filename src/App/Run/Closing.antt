-- ===== src/App/Run/Closing.antt =====
-- Run closes what it opened.
use chain_watch.Prelude.{◌≡◌, refl, false, Bool-cases, inl, inr}
use chain_watch.Errors.{GoError, Result, ok, err, is_nil, wrap, wrapped, rpc, new_domain_error}
use chain_watch.Effects.{Action, proceed, ◌>>=◌}
use chain_watch.Rpc.Config.{policy_of}
use chain_watch.Config.{Config, Libraries, rpc_config, validate}
use chain_watch.Config.Checks.{validate-Valid}
use chain_watch.Ethereum.Client.{new_ethereum_client}
use chain_watch.App.{ethereum_rpc_config}
use chain_watch.App.Settings.{valid_policy}
use chain_watch.App.Run.{Surroundings, deferring, new_client, with_pool, with_client, run}

module _ {W : Type 0} (l : Libraries) (s : Surroundings W) (c : Config) where
  -- How Run ends, by what was opened.
  pub data RunEnd (w : W) (r : Result (Unit {0}) × W) : Type 0 where
    run_refused :
        is_nil (validate l c) ≡ false
        → r ≡ (err (wrapped "validate configuration" (validate l c)), w)
        → RunEnd w r
    run_not_dialed :
        (e : GoError) (after : W)
        → s.dial c.ethereum_rpc_url w ≡ (err e, after)
        → r ≡ (
          err (wrapped "create Ethereum client" (new_domain_error rpc "connect to Ethereum RPC" e)),
          after,
        )
        → RunEnd w r
    run_no_pool :
        (dialed after : W) (e : GoError)
        → s.dial c.ethereum_rpc_url w ≡ (ok tt, dialed)
        → s.open_pool c.database_url dialed ≡ (err e, after)
        → r ≡ (err (wrapped "create PostgreSQL pool" e), s.close_client after)
        → RunEnd w r
    run_closed :
        (dialed pooled after : W) (outcome : Result (Unit {0}))
        → s.dial c.ethereum_rpc_url w ≡ (ok tt, dialed)
        → s.open_pool c.database_url dialed ≡ (ok tt, pooled)
        → with_pool l s c (policy_of (ethereum_rpc_config (rpc_config c))) pooled ≡ (outcome, after)
        → r ≡ (outcome, s.close_client (s.close_pool after))
        → RunEnd w r

  abbrev inner : Action W (Unit {0})
  inner = with_pool l s c (policy_of (ethereum_rpc_config (rpc_config c)))

  opened :
      (w dialed : W)
      → s.dial c.ethereum_rpc_url w ≡ (ok tt, dialed)
      → (pool : Result (Unit {0}) × W) → s.open_pool c.database_url dialed ≡ pool
      → RunEnd w (
          deferring s.close_client
            (λ (_ : W).
              proceed
                (wrap "create PostgreSQL pool" pool.0)
                (λ _. deferring s.close_pool inner)
                pool.1)
            dialed)
  unfolding deferring
  opened w dialed first (err e, after) at = run_no_pool dialed after e first at refl
  opened w dialed first (ok u, pooled) at =
      run_closed dialed pooled (inner pooled).1 (inner pooled).0 first at refl refl

  -- Run refuses a configuration that Validate refuses and opens nothing. With any other the settings of
  -- the RPC client are never refused, and whatever happens then: a client that was dialed is closed at
  -- the end, and so is a pool that was opened, before the client; no other is closed.
  pub run-RunEnd : (w : W) → RunEnd w (run l s c w)
  unfolding run with_client deferring new_client ◌>>=◌
  run-RunEnd w = elim (Bool-cases (is_nil (validate l c))) [
    | inr refused ↦ rw refused (run_refused refused refl)
    | inl fine ↦
        rw (fine, valid_policy (rpc_config c) (validate-Valid l c fine).rpc)
          (dialed_client (s.dial c.ethereum_rpc_url w) refl)
  ]
    where
      dialed_client :
          (client : Result (Unit {0}) × W)
          → s.dial c.ethereum_rpc_url w ≡ client
          → RunEnd w (
              proceed
                (wrap "create Ethereum client" (new_ethereum_client client.0))
                (λ _. deferring s.close_client (λ (v : W).
                  proceed
                    (wrap "create PostgreSQL pool" (s.open_pool c.database_url v).0)
                    (λ _. deferring s.close_pool inner)
                    (s.open_pool c.database_url v).1))
                client.1)
      dialed_client (err e, after) at = run_not_dialed e after at refl
      dialed_client (ok u, dialed) at = opened w dialed at (s.open_pool c.database_url dialed) refl
