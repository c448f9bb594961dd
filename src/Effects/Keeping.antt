-- ===== src/Effects/Keeping.antt =====
-- Calls that leave some view of the world as it is, whether they fail or not.
use chain_watch.Prelude.{String, ◌≡◌, ◌∙◌, refl}
use chain_watch.Errors.{Sentinel, Result, ok, err}
use chain_watch.Effects.{Action, pure, give, wrapping, classifying, ◌>>=◌}

module _ {W V : Type 0} (view : W → V) where
  abbrev pub Keeps : {A : Type 0} → Action W A → Type 0
  Keeps m = (w : W) → view (m w).1 ≡ view w

  module _ {A : Type 0} where
    pub pure-Keeps : (a : A) → Keeps (pure a)
    unfolding ◌>>=◌
    pure-Keeps a w = refl

    pub give-Keeps : (r : Result A) → Keeps (give r)
    unfolding ◌>>=◌
    give-Keeps r w = refl

    pub wrapping-Keeps : (message : String) (m : Action W A) → Keeps m → Keeps (wrapping message m)
    unfolding ◌>>=◌
    wrapping-Keeps message m h w = h w

    pub classifying-Keeps :
        (category : Sentinel) (operation : String) (m : Action W A)
        → Keeps m
        → Keeps (classifying category operation m)
    unfolding ◌>>=◌
    classifying-Keeps category operation m h w = h w

  module _ {A B : Type 0} where
    pub bind-Keeps :
        (m : Action W A) (f : A → Action W B) → Keeps m → ((a : A) → Keeps (f a)) → Keeps (m >>= f)
    unfolding ◌>>=◌
    bind-Keeps m f hm hf w = go (m w) (hm w)
      where
        go : (r : Result A × W) → view r.1 ≡ view w → view (((λ (_ : W). r) >>= f) w).1 ≡ view w
        go (ok a, after) h = hf a after ∙ h
        go (err e, after) h = h
