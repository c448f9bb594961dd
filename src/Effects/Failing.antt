-- ===== src/Effects/Failing.antt =====
-- Code that never fails with a nil error.
use chain_watch.Prelude.{String, ◌≡◌, refl, true, false}
use chain_watch.Errors.{GoError, wrapped, Sentinel, Result, ok, err, is, is_nil, classify_error}
use chain_watch.Errors.Classify.{classify_error-category}
use chain_watch.Effects.{Action, pure, wrapping, classifying, ◌>>=◌}

module _ {W A : Type 0} where
  abbrev pub RealErrors : Result A × W → Type 0
  RealErrors r = (e : GoError) → r.0 ≡ err e → is_nil e ≡ false

  pub pure-RealErrors : (a : A) (w : W) → RealErrors (pure a w)
  unfolding ◌>>=◌
  pure-RealErrors a w e h = cc

  -- `fmt.Errorf` never gives nil, whatever the call in it fails with.
  pub wrapping-RealErrors :
      (message : String) (m : Action W A) (w : W) → RealErrors (wrapping message m w)
  unfolding ◌>>=◌
  wrapping-RealErrors message m w = go (m w)
    where
      go : (r : Result A × W) → RealErrors (wrapping message (λ (_ : W). r) w)
      go (ok a, after) e h = cc
      go (err x, after) e h = let same : wrapped message x ≡ e = cc in rw (← same) refl

  pub classifying-category :
      (category : Sentinel) (operation : String) (m : Action W A) (w : W) (e : GoError)
      → RealErrors (m w)
      → (classifying category operation m w).0 ≡ err e
      → is e category ≡ true
  unfolding ◌>>=◌
  classifying-category category operation m w e real h = go (m w) real h
    where
      go :
          (r : Result A × W)
          → RealErrors r
          → (classifying category operation (λ (_ : W). r) w).0 ≡ err e
          → is e category ≡ true
      go (ok a, after) real h = cc
      go (err x, after) real h =
          let same : classify_error x category operation ≡ e = cc in
          rw (← same) (classify_error-category x category operation (real x refl))

module _ {W A B : Type 0} where
  pub bind-RealErrors :
      (m : Action W A) (f : A → Action W B) (w : W)
      → RealErrors (m w)
      → ((a : A) (after : W) → RealErrors (f a after))
      → RealErrors ((m >>= f) w)
  unfolding ◌>>=◌
  bind-RealErrors m f w h next = go (m w) h
    where
      go : (r : Result A × W) → RealErrors r → RealErrors (((λ (_ : W). r) >>= f) w)
      go (ok a, after) h = next a after
      go (err e, after) h =
          λ x same. let inner : ◌≡◌ {A = Result A} (err e) (err x) = cc in h x inner
