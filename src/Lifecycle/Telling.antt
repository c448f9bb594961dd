-- ===== src/Lifecycle/Telling.antt =====
-- What an event is to tell, and errors that are joined.
use chain_watch.Prelude.{
  ℕ, suc, ◌≡◌, refl, Bool, true, false, not, ◌&&◌, ◌||◌, ◌==◌, nat_eq, List, [], ◌∷◌, Bool-cases,
  inl, inr, arith, if◌then◌else◌,
}
use chain_watch.Errors.{
  Sentinel, GoError, nil, sentinel, text, wrapped, domain_error, public_error, joined, http_error,
  network_error, rpc_error, is, is_nil, sentinel_eq, deadline_exceeded,
}
use chain_watch.Lifecycle.{Event, service_done, shutdown_done, timed_out, is_context_termination}

-- An event that nothing is to be told of.
unfoldable pub is_quiet : Event → Bool
is_quiet (service_done name e) = is_nil e || is_context_termination e
is_quiet (shutdown_done name e) = is_nil e
is_quiet timed_out = false

-- The event has an error of the kind that is to be told.
unfoldable pub has_error : Sentinel → Event → Bool
has_error t (service_done name e) = not (is_context_termination e) && is e t
has_error t (shutdown_done name e) = is e t
has_error t timed_out = deadline_exceeded == t

unfoldable pub all_quiet : List Event → Bool
all_quiet [] = true
all_quiet (v ∷ events) = is_quiet v && all_quiet events

unfoldable pub any_error : Sentinel → List Event → Bool
any_error t [] = false
any_error t (v ∷ events) = has_error t v || any_error t events

unfoldable pub services_done : List Event → ℕ
services_done [] = 0
services_done (service_done name e ∷ events) = suc (services_done events)
services_done (shutdown_done name e ∷ events) = services_done events
services_done (timed_out ∷ events) = services_done events

unfoldable pub shutdowns_done : List Event → ℕ
shutdowns_done [] = 0
shutdowns_done (service_done name e ∷ events) = shutdowns_done events
shutdowns_done (shutdown_done name e ∷ events) = suc (shutdowns_done events)
shutdowns_done (timed_out ∷ events) = shutdowns_done events

unfoldable pub in_time : List Event → Bool
in_time [] = true
in_time (service_done name e ∷ events) = in_time events
in_time (shutdown_done name e ∷ events) = in_time events
in_time (timed_out ∷ events) = false

or_assoc : (a b c : Bool) → ((a || b) || c) ≡ (a || (b || c))
or_assoc true b c = refl
or_assoc false b c = refl

-- Joining an error only where there is something to tell.
pub is-joined :
    (quiet : Bool) (r w : GoError) (t : Sentinel) (rest : Bool)
    → (is (if quiet then r else joined r w) t || rest) ≡ (is r t || ((not quiet && is w t) || rest))
unfolding is
is-joined true r w t rest = refl
is-joined false r w t rest = or_assoc (is r t) (is w t) rest

pub is_nil-joined :
    (quiet : Bool) (r w : GoError) (rest : Bool)
    → (is_nil (if quiet then r else joined r w) && rest) ≡ (is_nil r && (quiet && rest))
is_nil-joined true r w rest = refl
is_nil-joined false r w rest = elim (Bool-cases (is_nil r)) [
  | inl h ↦ rw h refl
  | inr h ↦ rw h refl
]

is-is_nil : (v : GoError) (t : Sentinel) → is_nil v ≡ true → is v t ≡ false
unfolding is
is-is_nil nil t h = refl
is-is_nil (sentinel s) t h = cc
is-is_nil (text s) t h = cc
is-is_nil (wrapped s v) t h = cc
is-is_nil (domain_error c o v) t h = cc
is-is_nil (public_error s m v) t h = cc
is-is_nil (joined v w) t h = cc
is-is_nil (http_error s) t h = cc
is-is_nil (network_error a b) t h = cc
is-is_nil (rpc_error c) t h = cc

pub is_told :
    (v : GoError) (t : Sentinel) (terminated : Bool)
    → (not (is_nil v || terminated) && is v t) ≡ (not terminated && is v t)
is_told v t terminated = elim (Bool-cases (is_nil v)) [
  | inl h ↦ ground (arith, is-is_nil v t h)
  | inr h ↦ rw h refl
]

pub shut_told : (v : GoError) (t : Sentinel) → (not (is_nil v) && is v t) ≡ is v t
shut_told v t = elim (Bool-cases (is_nil v)) [
  | inl h ↦ ground (arith, is-is_nil v t h)
  | inr h ↦ rw h refl
]
