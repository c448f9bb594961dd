-- ===== src/Errors.antt =====
-- Go's `error` values as the program builds them, `errors.Is` on them, and internal/domain/error.go.
-- The arguments of a format string other than the wrapped error are left out of the text.
pub mod Classify
use chain_watch.Prelude.{
  ℕ, ℤ, String, Bool, true, false, ◌||◌, ◌≡◌, refl, ◌↔◌, Eq, ◌==◌, if◌then◌else◌,
}

-- The values made once by `errors.New` and compared by identity: those of internal/domain/error.go,
-- of the other packages, and of the libraries that the program tests for.
pub data Sentinel : Type 0 where
  configuration rpc database validation indexing metadata : Sentinel
  not_found bad_input temporary_dependency invalid_token_address chain_reorg : Sentinel
  invalid_block_range invalid_worker_count reorg_too_deep reorg_history_unavailable : Sentinel
  transaction_already_processed sender_not_found insufficient_balance : Sentinel
  empty_transaction_hash empty_sender empty_receiver zero_value : Sentinel
  not_erc20_transfer invalid_erc20_transfer_data invalid_transfer_cursor service_stopped : Sentinel
  canceled deadline_exceeded no_rows ethereum_not_found : Sentinel
  eof unexpected_eof connection_reset connection_refused broken_pipe : Sentinel

pub Sentinel-discrete : Discrete Sentinel
Sentinel-discrete = hlevel

-- An interface value of type `error`. `text` is an error with no cause, `wrapped` is `fmt.Errorf`
-- with `%w`, `joined` is `errors.Join` of two, and the last three are errors of the RPC libraries.
pub data GoError : Type 0 where
  nil : GoError
  sentinel : Sentinel → GoError
  text : String → GoError
  wrapped : String → GoError → GoError
  domain_error : GoError → String → GoError → GoError
  public_error : ℕ → String → GoError → GoError
  joined : GoError → GoError → GoError
  http_error : ℕ → GoError
  network_error : Bool → Bool → GoError
  rpc_error : ℤ → GoError

pub sentinel_beq : Sentinel → Sentinel → Bool
unfolding Sentinel-discrete
sentinel_beq a b = elim (Sentinel-discrete a b) [ yes _ ↦ true | no _ ↦ false ]

dec_iff {ℓ} : {P : Type ℓ} (d : Dec P) → ((elim d [ yes _ ↦ true | no _ ↦ false ]) ≡ true) ↔ P
dec_iff (yes p) = (λ _. p, λ _. refl)
dec_iff (no np) = (λ h. cc, λ p. absurd (np p))

pub sentinel_beq_iff : (a b : Sentinel) → (sentinel_beq a b ≡ true) ↔ (a ≡ b)
unfolding sentinel_beq
sentinel_beq_iff a b = dec_iff (Sentinel-discrete a b)

instance abbrev pub sentinel_eq : Eq Sentinel
sentinel_eq = record { beq = sentinel_beq; beq_iff = sentinel_beq_iff }

-- `errors.Is(err, target)` for a target made by `errors.New`: the error itself, or one of those that
-- `Unwrap` gives, at any depth.
unfoldable pub is : GoError → Sentinel → Bool
is nil target = false
is (sentinel s) target = s == target
is (text message) target = false
is (wrapped message cause) target = is cause target
is (domain_error category operation cause) target = is category target || is cause target
is (public_error status message cause) target = is cause target
is (joined first second) target = is first target || is second target
is (http_error status) target = false
is (network_error timeout temporary) target = false
is (rpc_error code) target = false

abbrev pub is_nil : GoError → Bool
is_nil nil = true
is_nil _ = false

-- `DomainError.Error` and `PublicError.Error` aside, which only make text.
unfoldable pub new_domain_error : Sentinel → String → GoError → GoError
new_domain_error category operation cause = domain_error (sentinel category) operation cause

-- The `target == nil` test is of a pointer to a variable, which is never nil here.
unfoldable pub classify_error : GoError → Sentinel → String → GoError
unfolding new_domain_error
classify_error e category operation =
    if is_nil e || is e category then e else new_domain_error category operation e

-- A pair of a value and an `error`: the callers look at the value only if the error is nil.
pub data Result {ℓ} (A : Type ℓ) : Type ℓ where
  ok : A → Result A
  err : GoError → Result A

-- `defer ClassifyError(&err, category, operation)`.
abbrev pub classify {ℓ} : {A : Type ℓ} → Sentinel → String → Result A → Result A
classify category operation (ok a) = ok a
classify category operation (err e) = err (classify_error e category operation)

-- `if err != nil { return ..., fmt.Errorf("...: %w", err) }`.
abbrev pub wrap {ℓ} : {A : Type ℓ} → String → Result A → Result A
wrap message (ok a) = ok a
wrap message (err e) = err (wrapped message e)
