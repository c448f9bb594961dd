-- ===== src/Tests/Running.antt =====
-- The application between opening and closing.
use chain_watch.Errors.{nil, ok, err, sentinel, eof}
use chain_watch.App.Run.{Surroundings, run}
use chain_watch.App.Run.Closing.{RunEnd, run-RunEnd}
use chain_watch.Tests.Node.{World, reorg_memory, orphaned_store}
use chain_watch.Tests.Groups.{libraries, loaded_config, node}

-- The database does not answer to a ping.
abbrev surroundings : Surroundings World
surroundings = record {
  dial = λ url w. (ok tt, w);
  close_client = λ w. w;
  open_pool = λ url w. (ok tt, w);
  close_pool = λ w. w;
  ping = λ w. (err (sentinel eof), w);
  node = λ policy. node;
  persistence = reorg_memory;
  run_services = λ start services w. (nil, w);
}

run-RunEnd_example :
    RunEnd libraries surroundings loaded_config orphaned_store
      (run libraries surroundings loaded_config orphaned_store)
run-RunEnd_example = run-RunEnd libraries surroundings loaded_config orphaned_store
