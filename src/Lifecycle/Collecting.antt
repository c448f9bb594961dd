-- ===== src/Lifecycle/Collecting.antt =====
-- The loop of Run in internal/lifecycle/group.go: what the events that it took say of its error.
use chain_watch.Prelude.{
  ℕ, ◌+◌, ◌≤◌, ◌≡◌, ◌∙◌, refl, sym, ap, String, true, false, ◌&&◌, ◌||◌, nat_eq, some, List, [],
  ◌∷◌, ◌++◌, Bool-cases, inl, inr, arith,
}
use chain_watch.Errors.{Sentinel, GoError, wrapped, is, is_nil, sentinel_eq}
use chain_watch.Lifecycle.{
  Event, service_done, shutdown_done, timed_out, Group, is_context_termination, service_stopped_in,
  shutdown_done_in, timeout_error, is_waiting, collect,
}
use chain_watch.Lifecycle.Telling.{
  is_quiet, has_error, all_quiet, any_error, services_done, shutdowns_done, in_time, is-joined,
  is_nil-joined, is_told, shut_told,
}

-- What the loop returns from `g` on, where it has taken `taken`.
pub record Collected (services : ℕ) (g : Group) (e : GoError) (taken : List Event) : Type 0 where
  pub errors : (t : Sentinel) → is e t ≡ (is g.run_err t || any_error t taken)
  pub clean : is_nil e ≡ (is_nil g.run_err && all_quiet taken)
  pub all_stopped : in_time taken ≡ true → services ≤ g.completed + services_done taken
  pub all_shut_down : in_time taken ≡ true → g.shutdowns_pending ≤ shutdowns_done taken

abbrev pub Returns : ℕ → Group → List Event → GoError × List Event → Type 0
Returns services g events r =
    (taken : List Event) × (events ≡ taken ++ r.1) × Collected services g r.0 taken

module _ (services : ℕ) where
  Collected-nothing :
      (g : Group) → is_waiting services g ≡ false → Collected services g g.run_err []
  unfolding any_error all_quiet services_done shutdowns_done
  Collected-nothing g over = record {
    errors = λ t. ground arith;
    clean = ground arith;
    all_stopped = λ h. ground arith;
    all_shut_down = λ h. ground arith;
  }

  Collected-service :
      (g : Group) (name : String) (v e : GoError) (taken : List Event)
      → Collected services (service_stopped_in v g) e taken
      → Collected services g e (service_done name v ∷ taken)
  unfolding any_error all_quiet services_done shutdowns_done in_time service_stopped_in has_error
      is_quiet is
  Collected-service g name v e taken c = record {
    errors = λ t.
        c.errors t
        ∙ (is-joined _ g.run_err (wrapped "%s stopped" v) t _
            ∙ ap (λ told. is g.run_err t || (told || any_error t taken))
                (is_told v t (is_context_termination v)));
    clean = c.clean ∙ is_nil-joined _ g.run_err (wrapped "%s stopped" v) _;
    all_stopped = λ h. ground (arith, c.all_stopped h);
    all_shut_down = λ h. c.all_shut_down h;
  }

  Collected-shutdown :
      (g : Group) (name : String) (v e : GoError) (taken : List Event)
      → Collected services (shutdown_done_in v g) e taken
      → Collected services g e (shutdown_done name v ∷ taken)
  unfolding any_error all_quiet services_done shutdowns_done in_time shutdown_done_in has_error
      is_quiet is
  Collected-shutdown g name v e taken c = record {
    errors = λ t.
        c.errors t
        ∙ (is-joined _ g.run_err (wrapped "shut down %s" v) t _
            ∙ ap (λ told. is g.run_err t || (told || any_error t taken)) (shut_told v t));
    clean = c.clean ∙ is_nil-joined _ g.run_err (wrapped "shut down %s" v) _;
    all_stopped = λ h. c.all_stopped h;
    all_shut_down = λ h. ground (arith, c.all_shut_down h);
  }

  Collected-timeout : (g : Group) → Collected services g (timeout_error g) (timed_out ∷ [])
  unfolding any_error all_quiet services_done shutdowns_done in_time timeout_error has_error
      is_quiet is
  Collected-timeout g = record {
    errors = λ t. ground arith;
    clean = ground arith;
    all_stopped = λ h. cc;
    all_shut_down = λ h. cc;
  }

  Returns-timeout :
      (g : Group) (events : List Event) (r : GoError × List Event)
      → some (timeout_error g, events) ≡ some r
      → Returns services g (timed_out ∷ events) r
  Returns-timeout g events r h =
      let e : (timeout_error g, events) ≡ r = cc in
      rw (sym e) (timed_out ∷ [], refl, Collected-timeout g)

  Returns-now :
      (g : Group) (events : List Event) (r : GoError × List Event)
      → is_waiting services g ≡ false
      → some (g.run_err, events) ≡ some r
      → Returns services g events r
  Returns-now g events r over h =
      let e : (g.run_err, events) ≡ r = cc in rw (sym e) ([], refl, Collected-nothing g over)

  -- The loop tells every error, and without the timeout it ends behind all the services and hooks.
  pub collect-Returns :
      (g : Group) (events : List Event) (r : GoError × List Event)
      → collect services g events ≡ some r
      → Returns services g events r
  unfolding collect
  collect-Returns g [] r h = elim (Bool-cases (is_waiting services g)) [
    | inl waits ↦ cc (rw waits at h)
    | inr over ↦ Returns-now g [] r over (rw over at h)
  ]
  collect-Returns g (service_done name v ∷ events) r h = elim (Bool-cases (is_waiting services g)) [
    | inl waits ↦
        let (taken, e, c) = collect-Returns (service_stopped_in v g) events r (rw waits at h) in
        (
          service_done name v ∷ taken,
          ap (λ xs. service_done name v ∷ xs) e,
          Collected-service g name v r.0 taken c,
        )
    | inr over ↦ Returns-now g _ r over (rw over at h)
  ]
  collect-Returns g (shutdown_done name v ∷ events) r h =
      elim (Bool-cases (is_waiting services g)) [
        | inl waits ↦
            let (taken, e, c) = collect-Returns (shutdown_done_in v g) events r (rw waits at h) in
            (
              shutdown_done name v ∷ taken,
              ap (λ xs. shutdown_done name v ∷ xs) e,
              Collected-shutdown g name v r.0 taken c,
            )
        | inr over ↦ Returns-now g _ r over (rw over at h)
      ]
  collect-Returns g (timed_out ∷ events) r h = elim (Bool-cases (is_waiting services g)) [
    | inl waits ↦ Returns-timeout g events r (rw waits at h)
    | inr over ↦ Returns-now g _ r over (rw over at h)
  ]

  -- Enough results end the loop.
  pub collect_returns :
      (g : Group) (events : List Event)
      → services ≤ g.completed + services_done events
      → g.shutdowns_pending ≤ shutdowns_done events
      → (r : GoError × List Event) × (collect services g events ≡ some r)
  unfolding collect services_done shutdowns_done service_stopped_in shutdown_done_in
  collect_returns g [] s p = ((g.run_err, []), ground arith)
  collect_returns g (service_done name v ∷ events) s p = elim (Bool-cases (is_waiting services g)) [
    | inl waits ↦
        let (r, e) = collect_returns (service_stopped_in v g) events (omega arith) p in
        (r, rw waits e)
    | inr over ↦ ((g.run_err, service_done name v ∷ events), rw over refl)
  ]
  collect_returns g (shutdown_done name v ∷ events) s p =
      elim (Bool-cases (is_waiting services g)) [
        | inl waits ↦
            let (r, e) = collect_returns (shutdown_done_in v g) events s (omega arith) in
            (r, rw waits e)
        | inr over ↦ ((g.run_err, shutdown_done name v ∷ events), rw over refl)
      ]
  collect_returns g (timed_out ∷ events) s p = elim (Bool-cases (is_waiting services g)) [
    | inl waits ↦ ((timeout_error g, events), rw waits refl)
    | inr over ↦ ((g.run_err, timed_out ∷ events), rw over refl)
  ]
