-- ===== src/Effects/Ends.antt =====
-- How an action ends: a condition on its value and world if it returns, one on the world if it fails.
use chain_watch.Prelude.{String, ◌≡◌, refl}
use chain_watch.Errors.{GoError, Sentinel, Result, ok, err}
use chain_watch.Effects.{Action, pure, fail, give, wrapping, classifying, ◌>>=◌}

pub record Ends {W A : Type 0} (Q : A → W → Type 0) (E : W → Type 0) (r : Result A × W)
    : Type 0 where
  pub returns : (a : A) → r.0 ≡ ok a → Q a r.1
  pub fails : (e : GoError) → r.0 ≡ err e → E r.1

module _ {W A : Type 0} {Q : A → W → Type 0} {E : W → Type 0} where
  pub Ends-ok : (a : A) (w : W) → Q a w → Ends Q E (ok a, w)
  Ends-ok a w h = record { returns = λ b e. rw (← ok-injective a b e) h; fails = λ x e. cc }
    where
      ok-injective : (a b : A) → ok a ≡ ok b → a ≡ b
      ok-injective a b e = cc

  pub Ends-err : (x : GoError) (w : W) → E w → Ends Q E (err x, w)
  Ends-err x w h = record { returns = λ b e. cc; fails = λ y e. h }

  pub Ends-pure : (a : A) (w : W) → Q a w → Ends Q E (pure a w)
  unfolding ◌>>=◌
  Ends-pure a w h = Ends-ok a w h

  pub Ends-fail : (e : GoError) (w : W) → E w → Ends Q E (fail e w)
  unfolding ◌>>=◌
  Ends-fail e w h = Ends-err e w h

  pub Ends-give : (r : Result A) (w : W) → ((a : A) → r ≡ ok a → Q a w) → E w → Ends Q E (give r w)
  unfolding ◌>>=◌
  Ends-give r w returns fails = record { returns = returns; fails = λ e _. fails }

  -- Where the error matters too.
  pub Ends-given :
      (r : Result A) (w : W)
      → ((a : A) → r ≡ ok a → Q a w)
      → ((e : GoError) → r ≡ err e → E w)
      → Ends Q E (give r w)
  unfolding ◌>>=◌
  Ends-given r w returns fails = record { returns = returns; fails = fails }

  pub Ends-wrapping :
      (message : String) (m : Action W A) (w : W) → Ends Q E (m w) → Ends Q E (wrapping message m w)
  unfolding ◌>>=◌
  Ends-wrapping message m w h = go (m w) h
    where
      go : (r : Result A × W) → Ends Q E r → Ends Q E (wrapping message (λ (_ : W). r) w)
      go (ok a, after) h = h
      go (err e, after) h = Ends-err _ after (h.fails e refl)

  pub Ends-classifying :
      (category : Sentinel) (operation : String) (m : Action W A) (w : W)
      → Ends Q E (m w)
      → Ends Q E (classifying category operation m w)
  unfolding ◌>>=◌
  Ends-classifying category operation m w h = go (m w) h
    where
      go :
          (r : Result A × W)
          → Ends Q E r
          → Ends Q E (classifying category operation (λ (_ : W). r) w)
      go (ok a, after) h = h
      go (err e, after) h = Ends-err _ after (h.fails e refl)

module _ {W A B : Type 0} (P : A → W → Type 0) {Q : B → W → Type 0} {E : W → Type 0} where
  pub Ends-bind :
      (m : Action W A) (f : A → Action W B) (w : W)
      → Ends P E (m w)
      → ((a : A) (after : W) → P a after → Ends Q E (f a after))
      → Ends Q E ((m >>= f) w)
  unfolding ◌>>=◌
  Ends-bind m f w h next = go (m w) h
    where
      go : (r : Result A × W) → Ends P E r → Ends Q E (((λ (_ : W). r) >>= f) w)
      go (ok a, after) h = next a after (h.returns a refl)
      go (err e, after) h = Ends-err e after (h.fails e refl)

module _ {W A : Type 0} {P Q : A → W → Type 0} {D E : W → Type 0} where
  pub Ends-mono :
      (r : Result A × W)
      → Ends P D r
      → ((a : A) (after : W) → P a after → Q a after)
      → ((after : W) → D after → E after)
      → Ends Q E r
  Ends-mono r h returns fails = record {
    returns = λ a e. returns a r.1 (h.returns a e);
    fails = λ x e. fails r.1 (h.fails x e);
  }
