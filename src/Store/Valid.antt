-- ===== src/Store/Valid.antt =====
-- The constraint of indexed_blocks, CHECK (block_number >= 0): no key is a negative pattern.
use chain_watch.Prelude.{
  ℕ, ◌^◌, ◌≤◌, ◌<◌, ◌≡◌, refl, Bool, List, [], ◌∷◌, none, All, ◌==◌, nat_eq, lookup, insert,
  delete_where, Bool-cases, inl, inr, arith,
}
use chain_watch.Store.{BlockRow, Tables}

abbrev pub KeysFit : Tables → Type 0
KeysFit t = All (λ (row : ℕ × BlockRow). row.0 < 2 ^ 63) t.indexed_blocks

module _ {V : Type 0} (P : ℕ → Type 0) where
  abbrev pub AllKeys : List (ℕ × V) → Type 0
  AllKeys m = All (λ (row : ℕ × V). P row.0) m

  pub All-insert : (k : ℕ) (v : V) (m : List (ℕ × V)) → P k → AllKeys m → AllKeys (insert k v m)
  unfolding insert
  All-insert k v [] p h = (p, tt)
  All-insert k v ((j, w) ∷ m) p (q, h) = elim (Bool-cases (j == k)) [
    | inl same ↦ rw same (p, h)
    | inr differ ↦ rw differ (q, All-insert k v m p h)
  ]

  pub All-delete_where :
      (drop : ℕ → Bool) (m : List (ℕ × V)) → AllKeys m → AllKeys (delete_where drop m)
  unfolding delete_where
  All-delete_where drop [] h = tt
  All-delete_where drop ((j, w) ∷ m) (q, h) = elim (Bool-cases (drop j)) [
    | inl gone ↦ rw gone (All-delete_where drop m h)
    | inr kept ↦ rw kept (q, All-delete_where drop m h)
  ]

-- A number above the BIGINTs has no row.
pub lookup-negative :
    {V : Type 0} (n : ℕ) (m : List (ℕ × V))
    → 2 ^ 63 ≤ n
    → AllKeys (λ k. k < 2 ^ 63) m
    → lookup n m ≡ none
unfolding lookup
lookup-negative n [] high h = refl
lookup-negative n ((j, w) ∷ m) high (low, h) = ground (arith, lookup-negative n m high h)
