-- ===== src/Lifecycle/Runs.antt =====
-- Run of internal/lifecycle/group.go as a whole.
use chain_watch.Prelude.{
  ℕ, ◌+◌, ◌≤◌, ◌≡◌, refl, String, Bool, true, false, not, ◌&&◌, ◌||◌, ◌==◌, nat_eq, some, List,
  length, Bool-cases, inl, inr, ℤ, if◌then◌else◌,
}
use chain_watch.Errors.{Sentinel, GoError, is, is_nil, sentinel_eq, service_stopped}
use chain_watch.Lifecycle.{
  Service, First, interrupted, stopped, Event, validate, shutdown_hooks, after_first, run_group,
}
use chain_watch.Lifecycle.Telling.{all_quiet, any_error, services_done, shutdowns_done, in_time}
use chain_watch.Lifecycle.Collecting.{collect_returns}

-- The first service that stops is told of unless the context is over, also if it has no error.
unfoldable pub has_first_error : Sentinel → First → Bool
has_first_error t interrupted = false
has_first_error t (stopped name e live) =
    live && (if is_nil e then service_stopped == t else is e t)

unfoldable pub is_quiet_first : First → Bool
is_quiet_first interrupted = true
is_quiet_first (stopped name e live) = not live

unfoldable pub first_results : First → ℕ
first_results interrupted = 0
first_results (stopped name e live) = 1

-- What a group of services returns that has taken `taken` behind the first `select`.
pub record Ended (services : List Service) (first : First) (e : GoError) (taken : List Event)
    : Type 0 where
  pub errors : (t : Sentinel) → is e t ≡ (has_first_error t first || any_error t taken)
  pub clean : is_nil e ≡ (is_quiet_first first && all_quiet taken)
  pub all_stopped :
      in_time taken ≡ true → length services ≤ first_results first + services_done taken
  pub all_shut_down : in_time taken ≡ true → shutdown_hooks services ≤ shutdowns_done taken

first-completed :
    (services : List Service) (first : First)
    → (after_first services first).completed ≡ first_results first
unfolding after_first first_results
first-completed services interrupted = refl
first-completed services (stopped name e live) = refl

first-shutdowns :
    (services : List Service) (first : First)
    → (after_first services first).shutdowns_pending ≡ shutdown_hooks services
unfolding after_first
first-shutdowns services interrupted = refl
first-shutdowns services (stopped name e live) = refl

module _ (trim_space : String → String) (timeout : ℤ) (services : List Service)
    (first : First) where
  -- A group returns once each service has given its result and each hook too.
  pub run_group_returns :
      (events : List Event)
      → length services ≤ first_results first + services_done events
      → shutdown_hooks services ≤ shutdowns_done events
      → (r : GoError × List Event) × (run_group trim_space timeout services first events ≡ some r)
  unfolding run_group
  run_group_returns events s p = elim (Bool-cases (is_nil (validate trim_space timeout services))) [
    | inl valid ↦
        let (r, e) =
          collect_returns (length services) (after_first services first) events
            (rw (first-completed services first) s) (rw (first-shutdowns services first) p) in
        (r, rw valid e)
    | inr invalid ↦ ((validate trim_space timeout services, events), rw invalid refl)
  ]
