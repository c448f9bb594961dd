-- ===== src/Config/Checks.antt =====
-- What the checks of internal/config/config.go let pass.
use chain_watch.Prelude.{
  ℕ, ◌≤◌, ◌≡◌, ◌⊎◌, refl, String, Bool, true, false, ◌||◌, ◌==◌, nat_eq, string_eq, beq_eq,
  beq_refl, Bool-cases, inl, inr, ℤ, not_positive, less, pos, negsuc, arith, if◌then◌else◌,
}
use chain_watch.Errors.{
  GoError, nil, text, is, is_nil, sentinel_eq, Result, ok, err, new_domain_error, validation,
}
use chain_watch.Config.{
  Config, RpcConfig, Libraries, validate_rpc, rpc_config, bad_port, check_host, check_host_port,
  validate_profiling_address, validate_resilience, validate_addresses, validate,
}

-- The RPC settings that pass.
pub record ValidRpc (c : RpcConfig) : Type 0 where
  pub attempts : not_positive c.max_attempts ≡ false
  pub initial : not_positive c.initial_backoff ≡ false
  pub ordered : less c.max_backoff c.initial_backoff ≡ false
  pub jitter : c.jitter_out_of_range ≡ false
  pub requests : not_positive c.requests_per_second ≡ false
  pub bursts : not_positive c.burst ≡ false

-- A host and a port that passes, on the machine itself.
pub record Loopback (l : Libraries) (address : String) : Type 0 where
  pub host : String
  pub port : String
  pub number : ℕ
  pub splits : l.split_host_port address ≡ ok (host, port)
  pub reads : l.atoi port ≡ ok (pos number)
  pub positive : 1 ≤ number
  pub small : number ≤ 65535
  pub local : (l.equal_fold host "localhost" || l.is_loopback (l.parse_ip host)) ≡ true

pub record Valid (l : Libraries) (c : Config) : Type 0 where
  pub rpc_url : (l.trim_space c.ethereum_rpc_url == "") ≡ false
  pub database : (l.trim_space c.database_url == "") ≡ false
  pub address : (l.trim_space c.http_address == "") ≡ false
  pub workers : not_positive c.worker_count ≡ false
  pub poll : not_positive c.poll_interval ≡ false
  pub shutdown : not_positive c.shutdown_timeout ≡ false
  pub header : not_positive c.read_header_timeout ≡ false
  pub read : not_positive c.read_timeout ≡ false
  pub write : not_positive c.write_timeout ≡ false
  pub idle : not_positive c.idle_timeout ≡ false
  pub reorgs : (c.max_reorg_depth == 0) ≡ false
  pub profiling : (c.profiling_address ≡ "") ⊎ Loopback l c.profiling_address
  pub rpc : ValidRpc (rpc_config c)

-- No error, or one that is classified.
abbrev Refused : GoError → Type 0
Refused e = (is_nil e ≡ true) ⊎ (is e validation ≡ true)

pub is-validation :
    (operation : String) (e : GoError)
    → is (new_domain_error validation operation e) validation ≡ true
unfolding new_domain_error is
is-validation operation e = rw (beq_refl validation) refl

if-Refused :
    (bad : Bool) (operation : String) (e rest : GoError)
    → Refused rest
    → Refused (if bad then new_domain_error validation operation e else rest)
if-Refused true operation e rest h = inr (is-validation operation e)
if-Refused false operation e rest h = h

-- A check that passes has a false condition.
passes :
    (bad : Bool) (e rest : GoError)
    → is_nil e ≡ false
    → is_nil (if bad then e else rest) ≡ true
    → (bad ≡ false) × (is_nil rest ≡ true)
passes true e rest h n = cc
passes false e rest h n = (refl, n)

succeeds :
    (good : Bool) (rest e : GoError)
    → is_nil e ≡ false
    → is_nil (if good then rest else e) ≡ true
    → (good ≡ true) × (is_nil rest ≡ true)
succeeds true rest e h n = (refl, n)
succeeds false rest e h n = cc

pub validate_rpc-ValidRpc : (c : RpcConfig) → is_nil (validate_rpc c) ≡ true → ValidRpc c
unfolding validate_rpc
validate_rpc-ValidRpc c h =
    let (attempts, h1) = passes _ _ _ refl h in
    let (initial, h2) = passes _ _ _ refl h1 in
    let (ordered, h3) = passes _ _ _ refl h2 in
    let (jitter, h4) = passes _ _ _ refl h3 in
    let (requests, h5) = passes _ _ _ refl h4 in
    let (bursts, h6) = passes _ _ _ refl h5 in
    record {
      attempts = attempts;
      initial = initial;
      ordered = ordered;
      jitter = jitter;
      requests = requests;
      bursts = bursts;
    }

module _ (l : Libraries) where
  bad_port-numbered :
      (r : Result ℤ) → bad_port l r ≡ false → (n : ℕ) × (r ≡ ok (pos n)) × (1 ≤ n) × (n ≤ 65535)
  bad_port-numbered (err e) h = cc
  bad_port-numbered (ok (negsuc n)) h = cc
  bad_port-numbered (ok (pos n)) h = (n, refl, ground arith, ground arith)

  is_local :
      (folded loopback : Bool) (e : GoError)
      → is_nil e ≡ false
      → is_nil (if folded then nil else (if loopback then nil else e)) ≡ true
      → (folded || loopback) ≡ true
  is_local true loopback e h n = refl
  is_local false true e h n = refl
  is_local false false e h n = cc

  check_host-Loopback :
      (address host port : String)
      → l.split_host_port address ≡ ok (host, port)
      → is_nil (check_host l host port) ≡ true
      → Loopback l address
  unfolding check_host
  check_host-Loopback address host port split h =
      let (named, h1) =
        passes (host == "") (text "profiling address must specify a loopback host") _ refl h in
      let (numbered, h2) =
        passes (bad_port l (l.atoi port))
          (text "profiling address must specify a numeric port between 1 and 65535") _ refl h1 in
      let (number, reads, positive, small) = bad_port-numbered (l.atoi port) numbered in
      record {
        host = host;
        port = port;
        number = number;
        splits = split;
        reads = reads;
        positive = positive;
        small = small;
        local =
            is_local (l.equal_fold host "localhost") (l.is_loopback (l.parse_ip host))
              (text "profiling address must use a loopback host") refl h2;
      }

  Loopback-split :
      (address : String) (r : Result (String × String))
      → l.split_host_port address ≡ r
      → is_nil (check_host_port l r) ≡ true
      → Loopback l address
  Loopback-split address (err e) split h = cc
  Loopback-split address (ok (host, port)) split h = check_host-Loopback address host port split h

  pub validate_profiling_address-Loopback :
      (address : String) → is_nil (validate_profiling_address l address) ≡ true → Loopback l address
  unfolding validate_profiling_address
  validate_profiling_address-Loopback address h = Loopback-split address _ refl h

  validate_resilience-ValidRpc :
      (c : Config) → is_nil (validate_resilience l c) ≡ true → ValidRpc (rpc_config c)
  unfolding validate_resilience new_domain_error
  validate_resilience-ValidRpc c h =
      validate_rpc-ValidRpc (rpc_config c)
        (succeeds (is_nil (validate_rpc (rpc_config c))) nil _ refl h).0

  validate_addresses-Checked :
      (c : Config)
      → is_nil (validate_addresses l c) ≡ true
      → ((c.profiling_address ≡ "") ⊎ Loopback l c.profiling_address) × ValidRpc (rpc_config c)
  unfolding validate_addresses new_domain_error
  validate_addresses-Checked c h = elim (Bool-cases (c.profiling_address == "")) [
    | inl none_given ↦
        (inl (beq_eq _ _ none_given), validate_resilience-ValidRpc c (rw none_given at h))
    | inr given ↦
        let (profiled, rest) =
          succeeds (is_nil (validate_profiling_address l c.profiling_address))
            (validate_resilience l c) _ refl (rw given at h) in
        (
          inr (validate_profiling_address-Loopback c.profiling_address profiled),
          validate_resilience-ValidRpc c rest,
        )
  ]

  pub validate-Valid : (c : Config) → is_nil (validate l c) ≡ true → Valid l c
  unfolding validate new_domain_error
  validate-Valid c h =
      let (rpc_url, h1) = passes _ _ _ refl h in
      let (database, h2) = passes _ _ _ refl h1 in
      let (address, h3) = passes _ _ _ refl h2 in
      let (workers, h4) = passes _ _ _ refl h3 in
      let (poll, h5) = passes _ _ _ refl h4 in
      let (shutdown, h6) = passes _ _ _ refl h5 in
      let (header, h7) = passes _ _ _ refl h6 in
      let (read, h8) = passes _ _ _ refl h7 in
      let (write, h9) = passes _ _ _ refl h8 in
      let (idle, h10) = passes _ _ _ refl h9 in
      let (reorgs, h11) = passes _ _ _ refl h10 in
      let (profiling, rpc) = validate_addresses-Checked c h11 in
      record {
        rpc_url = rpc_url;
        database = database;
        address = address;
        workers = workers;
        poll = poll;
        shutdown = shutdown;
        header = header;
        read = read;
        write = write;
        idle = idle;
        reorgs = reorgs;
        profiling = profiling;
        rpc = rpc;
      }

  validate_resilience-Refused : (c : Config) → Refused (validate_resilience l c)
  unfolding validate_resilience
  validate_resilience-Refused c = elim (Bool-cases (is_nil (validate_rpc (rpc_config c)))) [
    | inl valid ↦ inl (rw valid refl)
    | inr invalid ↦ inr (rw invalid (is-validation _ _))
  ]

  validate_addresses-Refused : (c : Config) → Refused (validate_addresses l c)
  unfolding validate_addresses
  validate_addresses-Refused c = elim (Bool-cases (c.profiling_address == "")) [
    | inl none_given ↦ rw none_given (validate_resilience-Refused c)
    | inr given ↦ elim (Bool-cases (is_nil (validate_profiling_address l c.profiling_address))) [
      | inl valid ↦ rw (given, valid) (validate_resilience-Refused c)
      | inr invalid ↦ rw (given, invalid) (inr (is-validation _ _))
    ]
  ]

  validate-Refused : (c : Config) → Refused (validate l c)
  unfolding validate
  validate-Refused c = search (if-Refused, validate_addresses-Refused) depth 13

  -- A configuration that is refused is refused with a validation error.
  pub validate-validation :
      (c : Config) → is_nil (validate l c) ≡ false → is (validate l c) validation ≡ true
  validate-validation c h = elim (validate-Refused c) [ inl passed ↦ cc | inr refused ↦ refused ]
