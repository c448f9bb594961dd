-- ===== src/Config.antt =====
-- internal/config/config.go: the settings of the process, from its environment. A duration is in
-- nanoseconds; an `int` is signed and a `uint64` is not.
pub mod Environment
pub mod Checks
pub mod Loading
use chain_watch.Prelude.{
  ℕ, ◌*◌, String, Bool, true, false, not, ◌&&◌, ◌||◌, ◌==◌, nat_eq, string_eq, Option, none, some,
  List, [], ◌∷◌, ltb, ℤ, pos, not_positive, less, negsuc, if◌then◌else◌,
}
use chain_watch.Errors.{
  GoError, nil, text, wrapped, is_nil, Result, ok, err, new_domain_error, validation,
}

pub record Config : Type 0 where
  pub ethereum_rpc_url : String
  pub database_url : String
  pub http_address : String
  pub profiling_address : String
  pub worker_count : ℤ
  pub poll_interval : ℤ
  pub shutdown_timeout : ℤ
  pub read_header_timeout : ℤ
  pub read_timeout : ℤ
  pub write_timeout : ℤ
  pub idle_timeout : ℤ
  pub confirmation_depth : ℕ
  pub max_reorg_depth : ℕ
  pub rpc_max_attempts : ℤ
  pub rpc_initial_backoff : ℤ
  pub rpc_max_backoff : ℤ
  pub rpc_requests_per_second : ℤ
  pub rpc_burst : ℤ

-- Of the jitter fraction, a float, only whether it is below 0 or above 1.
pub record RpcConfig : Type 0 where
  pub max_attempts : ℤ
  pub initial_backoff : ℤ
  pub max_backoff : ℤ
  pub jitter_out_of_range : Bool
  pub requests_per_second : ℤ
  pub burst : ℤ

-- Functions of the standard library: of `strings`, `strconv`, `time` and `net`. An address is its
-- bytes, and no bytes stand for nil.
pub record Libraries : Type 0 where
  pub trim_space : String → String
  pub atoi : String → Result ℤ
  pub parse_uint : String → Result ℕ
  pub parse_duration : String → Result ℤ
  pub split_host_port : String → Result (String × String)
  pub equal_fold : String → String → Bool
  pub parse_ip : String → List ℕ
  pub is_loopback : List ℕ → Bool

unfoldable pub validate_rpc : RpcConfig → GoError
validate_rpc c =
    if not_positive c.max_attempts
    then text "RPC max attempts must be greater than zero"
    else if not_positive c.initial_backoff
    then text "RPC initial backoff must be greater than zero"
    else if less c.max_backoff c.initial_backoff
    then text "RPC max backoff must be at least the initial backoff"
    else if c.jitter_out_of_range
    then text "RPC jitter fraction must be between zero and one"
    else if not_positive c.requests_per_second
    then text "RPC requests per second must be greater than zero"
    else if not_positive c.burst
    then text "RPC burst must be greater than zero"
    else nil

-- The fraction is 0.2.
unfoldable pub rpc_config : Config → RpcConfig
rpc_config c = record {
  max_attempts = c.rpc_max_attempts;
  initial_backoff = c.rpc_initial_backoff;
  max_backoff = c.rpc_max_backoff;
  jitter_out_of_range = false;
  requests_per_second = c.rpc_requests_per_second;
  burst = c.rpc_burst;
}

abbrev pub milliseconds : ℕ → ℤ
milliseconds n = pos (n * 1000000)

abbrev pub seconds : ℕ → ℤ
seconds n = pos (n * 1000000000)

abbrev pub default_config : Config
default_config = record {
  ethereum_rpc_url = "";
  database_url = "";
  http_address = ":8080";
  profiling_address = "";
  worker_count = pos 3;
  poll_interval = seconds 4;
  shutdown_timeout = seconds 5;
  read_header_timeout = seconds 5;
  read_timeout = seconds 15;
  write_timeout = seconds 30;
  idle_timeout = seconds 60;
  confirmation_depth = 12;
  max_reorg_depth = 64;
  rpc_max_attempts = pos 4;
  rpc_initial_backoff = milliseconds 200;
  rpc_max_backoff = seconds 3;
  rpc_requests_per_second = pos 20;
  rpc_burst = pos 10;
}

abbrev invalid : String → GoError
invalid message = new_domain_error validation "validate configuration" (text message)

-- `if err != nil { return ..., err }` behind each reading.
infixl 5 ◌>>=◌
abbrev pub ◌>>=◌ : {A B : Type 0} → Result A → (A → Result B) → Result B
ok a >>= f = f a
err e >>= f = err e

module _ (l : Libraries) where
  abbrev no_port : ℤ → Bool
  no_port (pos n) = ltb n 1 || ltb 65535 n
  no_port (negsuc n) = true

  abbrev pub bad_port : Result ℤ → Bool
  bad_port (err e) = true
  bad_port (ok port) = no_port port

  -- The checks behind net.SplitHostPort.
  unfoldable pub check_host : String → String → GoError
  check_host host port =
      if host == ""
      then text "profiling address must specify a loopback host"
      else if bad_port (l.atoi port)
      then text "profiling address must specify a numeric port between 1 and 65535"
      else if l.equal_fold host "localhost"
      then nil
      else if l.is_loopback (l.parse_ip host)
      then nil
      else text "profiling address must use a loopback host"

  abbrev pub check_host_port : Result (String × String) → GoError
  check_host_port (err e) = wrapped "parse profiling address" e
  check_host_port (ok (host, port)) = check_host host port

  unfoldable pub validate_profiling_address : String → GoError
  validate_profiling_address address = check_host_port (l.split_host_port address)

  -- The default case of Validate, behind the profiling address and as a whole.
  unfoldable pub validate_resilience : Config → GoError
  validate_resilience c =
      if is_nil (validate_rpc (rpc_config c))
      then nil
      else new_domain_error validation "validate RPC resilience configuration"
          (validate_rpc (rpc_config c))

  unfoldable pub validate_addresses : Config → GoError
  validate_addresses c =
      if c.profiling_address == ""
      then validate_resilience c
      else if is_nil (validate_profiling_address c.profiling_address)
      then validate_resilience c
      else new_domain_error validation "validate PPROF_ADDRESS"
          (validate_profiling_address c.profiling_address)

  unfoldable pub validate : Config → GoError
  validate c =
      if l.trim_space c.ethereum_rpc_url == ""
      then invalid "ETH_RPC_URL is required"
      else if l.trim_space c.database_url == ""
      then invalid "DATABASE_URL is required"
      else if l.trim_space c.http_address == ""
      then invalid "HTTP_ADDRESS must not be empty"
      else if not_positive c.worker_count
      then invalid "WORKER_COUNT must be greater than zero"
      else if not_positive c.poll_interval
      then invalid "POLL_INTERVAL must be greater than zero"
      else if not_positive c.shutdown_timeout
      then invalid "SHUTDOWN_TIMEOUT must be greater than zero"
      else if not_positive c.read_header_timeout
      then invalid "READ_HEADER_TIMEOUT must be greater than zero"
      else if not_positive c.read_timeout
      then invalid "READ_TIMEOUT must be greater than zero"
      else if not_positive c.write_timeout
      then invalid "WRITE_TIMEOUT must be greater than zero"
      else if not_positive c.idle_timeout
      then invalid "IDLE_TIMEOUT must be greater than zero"
      else if c.max_reorg_depth == 0
      then invalid "MAX_REORG_DEPTH must be greater than zero"
      else validate_addresses c
