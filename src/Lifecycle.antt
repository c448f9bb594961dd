-- ===== src/Lifecycle.antt =====
-- internal/lifecycle/group.go: running services together. What the goroutines send and when the two
-- contexts end is a sequence of events, in the order in which the `select`s take them.
pub mod Telling
pub mod Collecting
pub mod Runs
use chain_watch.Prelude.{
  ℕ, zero, suc, ◌+◌, ◌-◌, String, Bool, true, false, not, ◌&&◌, ◌||◌, ◌==◌, nat_eq, string_eq,
  Option, none, some, List, [], ◌∷◌, ltb, length, ℤ, not_positive, if◌then◌else◌,
}
use chain_watch.Errors.{
  GoError, nil, sentinel, text, wrapped, joined, is, is_nil, Result, ok, err, service_stopped,
  canceled, deadline_exceeded,
}

-- A service; `Run` and `Shutdown` may be nil.
pub record Service : Type 0 where
  pub name : String
  pub has_run : Bool
  pub has_shutdown : Bool

abbrev mem_name : String → List String → Bool
mem_name name [] = false
mem_name name (n ∷ names) = n == name || mem_name name names

-- The loop of validate; `names` is the set of the names before.
unfoldable pub validate_services : (String → String) → List String → List Service → GoError
validate_services trim_space names [] = nil
validate_services trim_space names (s ∷ services) =
    let rest = validate_services trim_space (s.name ∷ names) services in
    if trim_space s.name == ""
    then text "service name is required"
    else if not s.has_run
    then text "service %q has no Run function"
    else if mem_name s.name names
    then text "duplicate service name %q"
    else rest

-- A context is always given here.
unfoldable pub validate : (String → String) → ℤ → List Service → GoError
validate trim_space shutdown_timeout services =
    if not_positive shutdown_timeout
    then text "shutdown timeout must be greater than zero"
    else if length services == 0
    then text "at least one service is required"
    else validate_services trim_space [] services

unfoldable pub is_context_termination : GoError → Bool
is_context_termination e = is e canceled || is e deadline_exceeded

-- What the first `select` takes: the end of the context, or the result of a service, with whether the
-- context was still live then.
pub data First : Type 0 where
  interrupted : First
  stopped : String → GoError → Bool → First

-- What the `select` of the loop takes.
pub data Event : Type 0 where
  service_done : String → GoError → Event
  shutdown_done : String → GoError → Event
  timed_out : Event

pub record Group : Type 0 where
  pub completed : ℕ
  pub shutdowns_pending : ℕ
  pub run_err : GoError

unfoldable pub first_error : GoError → Bool → GoError
first_error e live =
    if live
    then if is_nil e then wrapped "%s" (sentinel service_stopped) else wrapped "%s stopped" e
    else nil

unfoldable pub shutdown_hooks : List Service → ℕ
shutdown_hooks [] = 0
shutdown_hooks (s ∷ services) =
    if s.has_shutdown then suc (shutdown_hooks services) else shutdown_hooks services

unfoldable pub after_first : List Service → First → Group
after_first services interrupted = record {
  completed = 0;
  shutdowns_pending = shutdown_hooks services;
  run_err = nil;
}
after_first services (stopped name e live) = record {
  completed = 1;
  shutdowns_pending = shutdown_hooks services;
  run_err = first_error e live;
}

-- A round of the loop for a result.
unfoldable pub service_stopped_in : GoError → Group → Group
service_stopped_in e g = record g {
  completed = g.completed + 1;
  run_err =
      if is_nil e || is_context_termination e
      then g.run_err
      else joined g.run_err (wrapped "%s stopped" e);
}

unfoldable pub shutdown_done_in : GoError → Group → Group
shutdown_done_in e g = record g {
  shutdowns_pending = g.shutdowns_pending - 1;
  run_err = if is_nil e then g.run_err else joined g.run_err (wrapped "shut down %s" e);
}

unfoldable pub timeout_error : Group → GoError
timeout_error g =
    joined g.run_err
      (wrapped "wait for services (%d running, %d shutting down)" (sentinel deadline_exceeded))

-- The condition of the loop.
abbrev pub is_waiting : ℕ → Group → Bool
is_waiting services g = ltb g.completed services || ltb 0 g.shutdowns_pending

-- The loop: the error that it returns and the events that it did not take, or `none` where it still
-- waits behind them all.
unfoldable pub collect : ℕ → Group → List Event → Option (GoError × List Event)
collect services g [] = if is_waiting services g then none else some (g.run_err, [])
collect services g (service_done name e ∷ events) =
    let rest = collect services (service_stopped_in e g) events in
    if is_waiting services g then rest else some (g.run_err, service_done name e ∷ events)
collect services g (shutdown_done name e ∷ events) =
    let rest = collect services (shutdown_done_in e g) events in
    if is_waiting services g then rest else some (g.run_err, shutdown_done name e ∷ events)
collect services g (timed_out ∷ events) =
    if is_waiting services g
    then some (timeout_error g, events)
    else some (g.run_err, timed_out ∷ events)

unfoldable pub run_group :
    (String → String) → ℤ → List Service → First → List Event → Option (GoError × List Event)
run_group trim_space shutdown_timeout services first events =
    if is_nil (validate trim_space shutdown_timeout services)
    then collect (length services) (after_first services first) events
    else some (validate trim_space shutdown_timeout services, events)
