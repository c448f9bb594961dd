-- ===== src/Blockchain/Balances.antt =====
-- The total of all balances, and what one transfer does to it.
use chain_watch.Prelude.{
  ℕ, ◌+◌, ◌-◌, ◌^◌, ◌≤◌, ◌<◌, ◌≡◌, List, [], ◌∷◌, ◌==◌, string_eq, lookup, insert, inl, inr,
  Bool-cases, eq_iff, lookup-insert, if◌then◌else◌, arith,
}
use chain_watch.Domain.{Address, u64}
use chain_watch.Blockchain.{Transaction, balance_of, transfer}

unfoldable pub total : List (Address × ℕ) → ℕ
total [] = 0
total ((a, n) ∷ m) = n + total m

pub total-insert :
    (a : Address) (n : ℕ) (m : List (Address × ℕ))
    → total (insert a n m) + balance_of a m ≡ total m + n
unfolding total insert lookup balance_of
total-insert a n [] = omega arith
total-insert a n ((b, k) ∷ m) = elim (Bool-cases (b == a)) [
  | inl same ↦ rw same (omega arith)
  | inr differ ↦ rw differ (omega (arith, total-insert a n m))
]

pub balance_of-total-le : (a : Address) (m : List (Address × ℕ)) → balance_of a m ≤ total m
unfolding total lookup balance_of
balance_of-total-le a [] = omega arith
balance_of-total-le a ((b, k) ∷ m) = elim (Bool-cases (b == a)) [
  | inl same ↦ rw same (omega arith)
  | inr differ ↦ rw differ (omega (arith, balance_of-total-le a m))
]

-- A transaction moves its value, which the sender has, from the sender to the receiver; every other
-- balance is as it was.
abbrev pub Moves : Transaction → List (Address × ℕ) → List (Address × ℕ) → Type 0
Moves tx before after =
    (tx.value_wei ≤ balance_of tx.from before)
    × ((address : Address)
        → balance_of address after + (if tx.from == address then tx.value_wei else 0)
          ≡ balance_of address before + (if tx.to == address then tx.value_wei else 0))

-- Transactions are paid one after the other.
abbrev pub Paid : List Transaction → List (Address × ℕ) → List (Address × ℕ) → Type 0
Paid [] before after = (address : Address) → balance_of address after ≡ balance_of address before
Paid (tx ∷ txs) before after =
    (between : List (Address × ℕ)) × Moves tx before between × Paid txs between after

balance_of-insert :
    (a x : Address) (n : ℕ) (m : List (Address × ℕ))
    → balance_of x (insert a n m) ≡ (if a == x then n else balance_of x m)
unfolding balance_of
balance_of-insert a x n m = ground (arith, lookup-insert a x n m)

pub transfer-Moves :
    (tx : Transaction) (n : ℕ) (m : List (Address × ℕ))
    → balance_of tx.from m ≡ n
    → tx.value_wei ≤ n
    → total m < 2 ^ 64
    → Moves tx m (transfer tx n m)
unfolding transfer
transfer-Moves tx n m found enough fits = (omega (arith, found), λ x. moved x)
  where
    debited : List (Address × ℕ)
    debited = insert tx.from (n - tx.value_wei) m

    no_wrap :
        u64 (balance_of tx.to debited + tx.value_wei) ≡ balance_of tx.to debited + tx.value_wei
    no_wrap =
        omega (
          arith,
          found,
          total-insert tx.from (n - tx.value_wei) m,
          balance_of-total-le tx.to debited,
        )

    moved :
        (x : Address)
        → balance_of x (insert tx.to (u64 (balance_of tx.to debited + tx.value_wei)) debited)
            + (if tx.from == x then tx.value_wei else 0)
          ≡ balance_of x m + (if tx.to == x then tx.value_wei else 0)
    moved x = ground (
      arith,
      found,
      no_wrap,
      eq_iff tx.from x,
      eq_iff tx.to x,
      eq_iff tx.from tx.to,
      balance_of-insert tx.to x (u64 (balance_of tx.to debited + tx.value_wei)) debited,
      balance_of-insert tx.from x (n - tx.value_wei) m,
      balance_of-insert tx.from tx.to (n - tx.value_wei) m,
    )

pub total-transfer :
    (tx : Transaction) (n : ℕ) (m : List (Address × ℕ))
    → balance_of tx.from m ≡ n
    → tx.value_wei ≤ n
    → total m < 2 ^ 64
    → total (transfer tx n m) ≡ total m
unfolding transfer
total-transfer tx n m found enough fits =
    let debited : List (Address × ℕ) = insert tx.from (n - tx.value_wei) m in
    omega (
      arith,
      found,
      total-insert tx.from (n - tx.value_wei) m,
      balance_of-total-le tx.to debited,
      total-insert tx.to (u64 (balance_of tx.to debited + tx.value_wei)) debited,
    )
