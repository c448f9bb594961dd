-- ===== src/Config/Environment.antt =====
-- The second half of internal/config/config.go: reading the environment. A lookup gives `none` where
-- the variable does not exist.
use chain_watch.Prelude.{ℕ, String, ◌==◌, nat_eq, string_eq, Option, none, some, ℤ, if◌then◌else◌}
use chain_watch.Errors.{text, is_nil, Result, ok, err, new_domain_error, validation, configuration}
use chain_watch.Config.{Config, Libraries, default_config, validate, ◌>>=◌}
use Prim.Native.String.{◌++◌}

abbrev pub EnvironmentLookup : Type 0
EnvironmentLookup = String → Option String

module _ (l : Libraries) where
  abbrev trimmed : Option String → Option String
  trimmed none = none
  trimmed (some value) = if l.trim_space value == "" then none else some (l.trim_space value)

  unfoldable pub optional_environment : EnvironmentLookup → String → Option String
  optional_environment lookup name = trimmed (lookup name)

  abbrev required : String → Option String → Result String
  required name none =
      err (new_domain_error validation "validate configuration" (text "%s is required"))
  required name (some value) = ok value

  unfoldable pub required_environment : EnvironmentLookup → String → Result String
  required_environment lookup name = required name (optional_environment lookup name)

  -- The error of a reading is classified, with the name of the variable.
  abbrev pub parsed : {A : Type 0} → String → Result A → Result A
  parsed name (ok a) = ok a
  parsed name (err e) = err (new_domain_error validation ("parse " ++ name) e)

  abbrev pub or_default : {A : Type 0} → (String → Result A) → String → A → Option String → Result A
  or_default parse name default none = ok default
  or_default parse name default (some value) = parsed name (parse value)

  unfoldable pub int_environment : EnvironmentLookup → String → ℤ → Result ℤ
  int_environment lookup name default =
      or_default l.atoi name default (optional_environment lookup name)

  unfoldable pub uint64_environment : EnvironmentLookup → String → ℕ → Result ℕ
  uint64_environment lookup name default =
      or_default l.parse_uint name default (optional_environment lookup name)

  unfoldable pub duration_environment : EnvironmentLookup → String → ℤ → Result ℤ
  duration_environment lookup name default =
      or_default l.parse_duration name default (optional_environment lookup name)

  abbrev value_or : String → Option String → String
  value_or default none = default
  value_or default (some value) = value

  -- The end of loadConfig.
  unfoldable pub validated : Config → Result Config
  validated c = if is_nil (validate l c) then ok c else err (validate l c)

  -- The settings of the RPC client, the last ones to be read.
  unfoldable pub load_rpc : EnvironmentLookup → Config → Result Config
  load_rpc lookup c = do
    attempts ← int_environment lookup "RPC_MAX_ATTEMPTS" c.rpc_max_attempts
    initial ← duration_environment lookup "RPC_INITIAL_BACKOFF" c.rpc_initial_backoff
    most ← duration_environment lookup "RPC_MAX_BACKOFF" c.rpc_max_backoff
    requests ← int_environment lookup "RPC_REQUESTS_PER_SECOND" c.rpc_requests_per_second
    burst ← int_environment lookup "RPC_BURST" c.rpc_burst
    validated (record c {
      rpc_max_attempts = attempts;
      rpc_initial_backoff = initial;
      rpc_max_backoff = most;
      rpc_requests_per_second = requests;
      rpc_burst = burst;
    })

  unfoldable pub load_timing : EnvironmentLookup → Config → Result Config
  load_timing lookup c = do
    poll ← duration_environment lookup "POLL_INTERVAL" c.poll_interval
    shutdown ← duration_environment lookup "SHUTDOWN_TIMEOUT" c.shutdown_timeout
    header ← duration_environment lookup "READ_HEADER_TIMEOUT" c.read_header_timeout
    read ← duration_environment lookup "READ_TIMEOUT" c.read_timeout
    write ← duration_environment lookup "WRITE_TIMEOUT" c.write_timeout
    idle ← duration_environment lookup "IDLE_TIMEOUT" c.idle_timeout
    confirmations ← uint64_environment lookup "CONFIRMATION_DEPTH" c.confirmation_depth
    reorg ← uint64_environment lookup "MAX_REORG_DEPTH" c.max_reorg_depth
    load_rpc lookup (record c {
      poll_interval = poll;
      shutdown_timeout = shutdown;
      read_header_timeout = header;
      read_timeout = read;
      write_timeout = write;
      idle_timeout = idle;
      confirmation_depth = confirmations;
      max_reorg_depth = reorg;
    })

  -- A nil lookup is refused. WORKER_COUNT is read as the other integers are.
  unfoldable pub load_with : Option EnvironmentLookup → Result Config
  load_with none = err (text "environment lookup is required")
  load_with (some lookup) = do
    rpc_url ← required_environment lookup "ETH_RPC_URL"
    database_url ← required_environment lookup "DATABASE_URL"
    workers ← int_environment lookup "WORKER_COUNT" default_config.worker_count
    load_timing lookup (record default_config {
      ethereum_rpc_url = rpc_url;
      database_url = database_url;
      http_address =
          value_or default_config.http_address (optional_environment lookup "HTTP_ADDRESS");
      profiling_address =
          value_or default_config.profiling_address (optional_environment lookup "PPROF_ADDRESS");
      worker_count = workers;
    })

  abbrev pub classified : Result Config → Result Config
  classified (ok c) = ok c
  classified (err e) = err (new_domain_error configuration "load environment configuration" e)

  -- On the lookup of the process's environment.
  unfoldable pub load_config : EnvironmentLookup → Result Config
  load_config environment = classified (load_with (some environment))
