-- ===== src/Config/Loading.antt =====
-- What loading the configuration of internal/config gives.
use chain_watch.Prelude.{
  ℕ, ◌≡◌, refl, String, true, Option, none, some, beq_refl, Option-cases, Bool-cases, inl, inr, ℤ,
  arith,
}
use chain_watch.Errors.{
  is, is_nil, Result, ok, err, new_domain_error, validation, configuration, sentinel_eq,
}
use chain_watch.Config.{Config, Libraries, validate, ◌>>=◌}
use chain_watch.Config.Environment.{
  EnvironmentLookup, int_environment, uint64_environment, duration_environment,
  required_environment, optional_environment, parsed, or_default, validated, load_rpc, load_timing,
  load_with, classified, load_config,
}
use chain_watch.Config.Checks.{Valid, is-validation, validate-Valid, validate-validation}

-- A value with `P`, or a validation error.
abbrev Loads : {A : Type 0} → (A → Type 0) → Result A → Type 0
Loads P (ok a) = P a
Loads P (err e) = is e validation ≡ true

-- What loadConfig may end with.
abbrev pub Outcome : Libraries → Result Config → Type 0
Outcome l (ok c) = Valid l c
Outcome l (err e) = (is e configuration ≡ true) × (is e validation ≡ true)

-- Any value, or a validation error.
abbrev Reads : {A : Type 0} → Result A → Type 0
Reads r = Loads (λ a. Unit {0}) r

Loads-bind :
    {A B : Type 0} (P : B → Type 0) (r : Result A) (f : A → Result B)
    → Reads r
    → ((a : A) → Loads P (f a))
    → Loads P (r >>= f)
Loads-bind P (ok a) f h k = k a
Loads-bind P (err e) f h k = h

parsed-Reads : {A : Type 0} (l : Libraries) (name : String) (r : Result A) → Reads (parsed l name r)
parsed-Reads l name (ok a) = tt
parsed-Reads l name (err e) = is-validation _ e

default-Reads :
    {A : Type 0} (l : Libraries) (parse : String → Result A) (name : String) (a : A)
    (found : Option String)
    → Reads (or_default l parse name a found)
default-Reads l parse name a none = tt
default-Reads l parse name a (some value) = parsed-Reads l name (parse value)

module _ (l : Libraries) (lookup : EnvironmentLookup) where
  int-Reads : (name : String) (n : ℤ) → Reads (int_environment l lookup name n)
  unfolding int_environment
  int-Reads name n = default-Reads l l.atoi name n _

  uint64-Reads : (name : String) (n : ℕ) → Reads (uint64_environment l lookup name n)
  unfolding uint64_environment
  uint64-Reads name n = default-Reads l l.parse_uint name n _

  duration-Reads : (name : String) (n : ℤ) → Reads (duration_environment l lookup name n)
  unfolding duration_environment
  duration-Reads name n = default-Reads l l.parse_duration name n _

  required-Reads : (name : String) → Reads (required_environment l lookup name)
  unfolding required_environment
  required-Reads name = elim (Option-cases (optional_environment l lookup name)) [
    | inl missing ↦ rw missing (is-validation _ _)
    | inr (value, found) ↦ rw found tt
  ]

  validated-Loads : (c : Config) → Loads (Valid l) (validated l c)
  unfolding validated
  validated-Loads c = elim (Bool-cases (is_nil (validate l c))) [
    | inl valid ↦ rw valid (validate-Valid l c valid)
    | inr invalid ↦ rw invalid (validate-validation l c invalid)
  ]

  load_rpc-Loads : (c : Config) → Loads (Valid l) (load_rpc l lookup c)
  unfolding load_rpc
  load_rpc-Loads c = Loads-bind _ _ _ (int-Reads _ _) (λ attempts.
      Loads-bind _ _ _ (duration-Reads _ _) (λ initial.
        Loads-bind _ _ _ (duration-Reads _ _) (λ most.
          Loads-bind _ _ _ (int-Reads _ _)
            (λ requests. Loads-bind _ _ _ (int-Reads _ _) (λ burst. validated-Loads _)))))

  load_timing-Loads : (c : Config) → Loads (Valid l) (load_timing l lookup c)
  unfolding load_timing
  load_timing-Loads c = Loads-bind _ _ _ (duration-Reads _ _) (λ poll.
      Loads-bind _ _ _ (duration-Reads _ _) (λ shutdown.
        Loads-bind _ _ _ (duration-Reads _ _) (λ header.
          Loads-bind _ _ _ (duration-Reads _ _) (λ read.
            Loads-bind _ _ _ (duration-Reads _ _) (λ write.
              Loads-bind _ _ _ (duration-Reads _ _) (λ idle.
                Loads-bind _ _ _ (uint64-Reads _ _) (λ confirmations.
                  Loads-bind _ _ _ (uint64-Reads _ _) (λ reorgs. load_rpc-Loads _))))))))

  load_with-Loads : Loads (Valid l) (load_with l (some lookup))
  unfolding load_with
  load_with-Loads = Loads-bind _ _ _ (required-Reads _) (λ rpc_url.
      Loads-bind _ _ _ (required-Reads _)
        (λ database_url. Loads-bind _ _ _ (int-Reads _ _) (λ workers. load_timing-Loads _)))

  load_config_lem : (r : Result Config) → Loads (Valid l) r → Outcome l (classified l r)
  unfolding new_domain_error is
  load_config_lem (ok c) h = h
  load_config_lem (err e) h = (rw (beq_refl configuration) refl, rw h (ground arith))

  -- Loading gives a configuration that passes every check, or an error that is both a configuration
  -- error and a validation error, whatever the environment holds.
  pub load_config-Outcome : Outcome l (load_config l lookup)
  unfolding load_config
  load_config-Outcome = load_config_lem _ load_with-Loads
