-- ===== src/Effects.antt =====
-- Go code that may fail and that changes a world `W`: a database, a node, the object itself.
-- The world comes back beside an error too, since what was written before the error stays written.
pub mod Ends
pub mod Failing
pub mod Keeping
use chain_watch.Prelude.{String, ◌≡◌, refl}
use chain_watch.Errors.{GoError, Sentinel, Result, ok, err, classify, wrap}

abbrev pub Action : Type 0 → Type 0 → Type 0
Action W A = W → Result A × W

module _ {W A : Type 0} where
  unfoldable pub pure : A → Action W A
  pure a w = (ok a, w)

  unfoldable pub fail : GoError → Action W A
  fail e w = (err e, w)

  -- A value that was computed before, or the error in its place.
  unfoldable pub give : Result A → Action W A
  give r w = (r, w)

  -- `if err != nil { return ..., fmt.Errorf("message: %w", err) }` behind the call.
  unfoldable pub wrapping : String → Action W A → Action W A
  wrapping message m w = let (r, after) = m w in (wrap message r, after)

  -- `defer ClassifyError(&err, category, operation)` in front of the body.
  unfoldable pub classifying : Sentinel → String → Action W A → Action W A
  classifying category operation m w =
      let (r, after) = m w in (classify category operation r, after)

module _ {W A B : Type 0} where
  abbrev pub proceed : Result A → (A → Action W B) → Action W B
  proceed (ok a) f w = f a w
  proceed (err e) f w = (err e, w)

  -- Opening this opens the actions above too.
  infixl 5 ◌>>=◌
  unfoldable pub ◌>>=◌ : Action W A → (A → Action W B) → Action W B
  unfolding pure fail give wrapping classifying
  ◌>>=◌ m f w = let (r, after) = m w in proceed r f after

module _ {W B : Type 0} where
  infixl 5 ◌>>◌
  abbrev pub ◌>>◌ : Action W (Unit {0}) → Action W B → Action W B
  m >> k = m >>= λ _. k

-- Two rests that agree on whatever the first part returns make equal actions.
pub bind-ext :
    {W A B : Type 0} (m : Action W A) (f g : A → Action W B) (w : W)
    → ((a : A) (after : W) → f a after ≡ g a after)
    → (m >>= f) w ≡ (m >>= g) w
unfolding ◌>>=◌
bind-ext {W} {A} m f g w h = go (m w)
  where
    go : (r : Result A × W) → ((λ (_ : W). r) >>= f) w ≡ ((λ (_ : W). r) >>= g) w
    go (ok a, after) = h a after
    go (err e, after) = refl

pub bind_assoc :
    {W A B C : Type 0} (m : Action W A) (f : A → Action W B) (g : B → Action W C) (w : W)
    → (m >>= f >>= g) w ≡ (m >>= λ a. f a >>= g) w
unfolding ◌>>=◌
bind_assoc {W} {A} m f g w = go (m w)
  where
    go :
        (r : Result A × W)
        → (((λ (_ : W). r) >>= f) >>= g) w ≡ ((λ (_ : W). r) >>= λ a. f a >>= g) w
    go (ok a, after) = refl
    go (err e, after) = refl

-- A first part that ends alike.
pub bind-result :
    {W A B : Type 0} (m : Action W A) (f : A → Action W B) (w : W) {r : Result A × W}
    → m w ≡ r
    → (m >>= f) w ≡ proceed r.0 f r.1
unfolding ◌>>=◌
bind-result m f w e = rw e
