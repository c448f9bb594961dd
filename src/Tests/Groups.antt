-- ===== src/Tests/Groups.antt =====
-- A group of services, the configuration and the start of the application at concrete inputs.
use chain_watch.Prelude.{
  ◌≡◌, refl, String, true, false, none, some, List, [], ◌∷◌, ◌==◌, string_eq, pos, arith,
  if◌then◌else◌,
}
use chain_watch.Errors.{GoError, nil, sentinel, eof, wrapped, joined, ok, err, text}
use chain_watch.Effects.Ends.{Ends}
use chain_watch.Lifecycle.{
  Service, stopped, Event, service_done, shutdown_done, validate, run_group, shutdown_hooks,
}
use chain_watch.Lifecycle.Telling.{services_done, shutdowns_done}
use chain_watch.Lifecycle.Runs.{first_results, run_group_returns}
use chain_watch.Config.{
  Config, Libraries, default_config, validate as check, validate_addresses, validate_resilience,
  validate_rpc, rpc_config,
}
use chain_watch.Config.Environment.{
  EnvironmentLookup, load_config, load_with, load_timing, load_rpc, validated, required_environment,
  optional_environment, int_environment, uint64_environment, duration_environment,
}
use chain_watch.Config.Loading.{Outcome, load_config-Outcome}
use chain_watch.Indexer.Memory.Laws.{memory_view, memory-Stores}
use chain_watch.Indexer.Reorg.Laws.{SameView, SameView-refl}
use chain_watch.App.{Node, determine_start_block}
use chain_watch.App.Start.{Starts, determine_start_block-Ends}
use chain_watch.App.Settings.{Accepted, load_config-Accepted}
use chain_watch.Tests.Node.{
  World, chain, block_of, canonical_node, reorg_memory, node-FollowsChain, orphaned_store,
}

abbrev same_text : String → String
same_text s = s

abbrev two_services : List Service
two_services =
    record { name = "indexer"; has_run = true; has_shutdown = false }
    ∷ record { name = "HTTP server"; has_run = true; has_shutdown = true }
    ∷ []

abbrev events : List Event
events = shutdown_done "HTTP server" nil ∷ service_done "HTTP server" (text "address in use") ∷ []

abbrev both_errors : GoError
both_errors =
    joined (wrapped "%s stopped" (sentinel eof)) (wrapped "%s stopped" (text "address in use"))

run_group_returns_example :
    (r : GoError × List Event) × (run_group same_text
        (pos 5)
        two_services
        (stopped "indexer" (sentinel eof) true)
        events
      ≡ some r)
unfolding first_results services_done shutdowns_done shutdown_hooks
run_group_returns_example =
    run_group_returns same_text (pos 5) two_services (stopped "indexer" (sentinel eof) true) events
      (omega arith) (omega arith)

abbrev pub libraries : Libraries
libraries = record {
  trim_space = same_text;
  atoi = λ s. ok (pos 7);
  parse_uint = λ s. err (text "invalid syntax");
  parse_duration = λ s. ok (pos 1000);
  split_host_port = λ s. ok (s, "6060");
  equal_fold = λ a b. a == b;
  parse_ip = λ s. [];
  is_loopback = λ ip. false;
}

abbrev environment : EnvironmentLookup
environment name =
    if name == "ETH_RPC_URL"
    then some "https://node"
    else if name == "DATABASE_URL"
    then some "postgres://db"
    else if name == "WORKER_COUNT"
    then some "7"
    else none

load_config-Outcome_example : Outcome libraries (load_config libraries environment)
load_config-Outcome_example = load_config-Outcome libraries environment

abbrev pub loaded_config : Config
loaded_config = record default_config {
  ethereum_rpc_url = "https://node";
  database_url = "postgres://db";
  worker_count = pos 7;
}

load_config-Accepted_example : Accepted same_text loaded_config
unfolding load_config load_with load_timing load_rpc validated required_environment
    optional_environment int_environment uint64_environment duration_environment check
    validate_addresses validate_resilience validate_rpc rpc_config
load_config-Accepted_example =
    load_config-Accepted libraries refl refl refl environment loaded_config refl

abbrev pub node : Node World
node = record {
  get_latest_observed_block = λ w. (ok (block_of 9), w);
  canonical_client = canonical_node;
}

determine_start_block-Ends_example :
    Ends
      (Starts memory_view chain node 2 orphaned_store)
      (SameView memory_view orphaned_store)
      (determine_start_block node reorg_memory 2 2 orphaned_store)
determine_start_block-Ends_example =
    determine_start_block-Ends memory_view chain node reorg_memory node-FollowsChain
      (λ w. SameView-refl w) (memory-Stores nil) 2 2 orphaned_store
