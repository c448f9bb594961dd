-- ===== src/Prelude/Maps.antt =====
-- Go maps as association lists: `m[k]`, `m[k] = v`, `delete` over a range of keys.
use Prim.Native.Nat.{◌≤◌, ◌<◌}
use mathlib.Core.Path.{◌≡◌, refl, ap}
use mathlib.Core.Bool.{Bool}
use mathlib.Core.Option.{Option, none, some}
use mathlib.Core.List.{List, [], ◌∷◌}
use mathlib.Core.Logic.{◌≢◌, inl, inr}
use native.Mathlib.Omega.{arith}
use chain_watch.Prelude.Tests.{if◌then◌else◌, Bool-cases}
use chain_watch.Prelude.Lists.{length}
use chain_watch.Prelude.Keys.{Eq, ◌==◌, beq_refl, beq_eq, beq_ne}

module _ {ℓ κ} {K : Type ℓ} {V : Type κ} ⦃e : Eq K⦄ where
  unfoldable pub lookup : K → List (K × V) → Option V
  lookup k [] = none
  lookup k ((j, v) ∷ m) = if j == k then some v else lookup k m

  -- `delete(m, k)` for every key that the test picks.
  unfoldable pub delete_where : (K → Bool) → List (K × V) → List (K × V)
  delete_where p [] = []
  delete_where p ((j, w) ∷ m) = if p j then delete_where p m else (j, w) ∷ delete_where p m

  unfoldable pub insert : K → V → List (K × V) → List (K × V)
  insert k v [] = (k, v) ∷ []
  insert k v ((j, w) ∷ m) = if j == k then (k, v) ∷ m else (j, w) ∷ insert k v m

  pub lookup-insert :
      (a b : K) (v : V) (m : List (K × V))
      → lookup b (insert a v m) ≡ (if a == b then some v else lookup b m)
  unfolding lookup insert
  lookup-insert a b v [] = refl
  lookup-insert a b v ((i, w) ∷ m) =
      ground (lookup-insert a b v m, e.beq_iff a b, e.beq_iff i a, e.beq_iff i b, arith)

  pub lookup-insert_self : (k : K) (v : V) (m : List (K × V)) → lookup k (insert k v m) ≡ some v
  lookup-insert_self k v m = rw (lookup-insert, beq_refl)

  pub lookup-insert_ne :
      (k j : K) (v : V) (m : List (K × V)) → k ≢ j → lookup j (insert k v m) ≡ lookup j m
  lookup-insert_ne k j v m h = rw (lookup-insert, beq_ne k j h)

  pub lookup-delete_where :
      (p : K → Bool) (j : K) (m : List (K × V))
      → lookup j (delete_where p m) ≡ (if p j then none else lookup j m)
  unfolding lookup delete_where
  lookup-delete_where p j [] = ground arith
  lookup-delete_where p j ((i, w) ∷ m) = elim (Bool-cases (i == j)) [
    | inl same ↦ ground (arith, ap p (beq_eq i j same), lookup-delete_where p j m)
    | inr differ ↦ ground (arith, lookup-delete_where p j m)
  ]

  pub length-delete_where-le :
      (p : K → Bool) (m : List (K × V)) → length (delete_where p m) ≤ length m
  unfolding delete_where
  length-delete_where-le p [] = omega arith
  length-delete_where-le p ((i, w) ∷ m) = ground (arith, length-delete_where-le p m)

  -- Deleting a key that is there makes the map shorter.
  pub length-delete_where :
      (k : K) (m : List (K × V)) (v : V)
      → lookup k m ≡ some v
      → length (delete_where (λ j. j == k) m) < length m
  unfolding lookup delete_where
  length-delete_where k [] v h = cc
  length-delete_where k ((i, w) ∷ m) v h = elim (Bool-cases (i == k)) [
    | inl same ↦ rw same (omega (arith, length-delete_where-le (λ j. j == k) m))
    | inr differ ↦
        let later : lookup k m ≡ some v = rw differ at h in
        rw differ (omega (arith, length-delete_where k m v later))
  ]
