-- ===== src/Domain/Transfers/Words.antt =====
-- The 32 bytes of a uint256 in the data of a log, and the topic that holds an address.
use chain_watch.Prelude.{
  ℕ, zero, suc, ◌+◌, ◌*◌, ◌/◌, ◌%◌, ◌^◌, ◌≤◌, ◌<◌, ◌≡◌, refl, [], ◌∷◌, ◌++◌, length, length-append,
  All, replicate, arith,
}
use chain_watch.Domain.Transfers.{Bytes, set_bytes}

-- A number in `k` bytes, as the ABI writes it.
abbrev pub word : ℕ → ℕ → Bytes
word zero n = []
word (suc k) n = word k (n / 256) ++ n % 256 ∷ []

abbrev IsByte : ℕ → Type 0
IsByte b = b < 256

-- An address of 20 bytes, padded as the ABI pads it.
abbrev pub padded : Bytes → Bytes
padded address = replicate 12 0 ++ address

pub length-word : (k n : ℕ) → length (word k n) ≡ k
length-word zero n = refl
length-word (suc k) n =
    omega (arith, length-append (word k (n / 256)) (n % 256 ∷ []), length-word k (n / 256))

set_bytes-append :
    (high : ℕ) (xs ys : Bytes) → set_bytes high (xs ++ ys) ≡ set_bytes (set_bytes high xs) ys
unfolding set_bytes
set_bytes-append high [] ys = refl
set_bytes-append high (x ∷ xs) ys = set_bytes-append (high * 256 + x) xs ys

pub set_bytes-word : (k n : ℕ) → n < 256 ^ k → set_bytes 0 (word k n) ≡ n
unfolding set_bytes
set_bytes-word zero n h = omega arith
set_bytes-word (suc k) n h =
    rw (set_bytes-append 0 (word k (n / 256)) (n % 256 ∷ []), set_bytes-word k (n / 256) fits)
      (omega arith)
  where
    fits : n / 256 < 256 ^ k
    fits = omega (arith, h)

pow_suc : (k : ℕ) → 256 ^ suc k ≡ 256 * 256 ^ k
pow_suc k = omega arith

widen : (high b p v : ℕ) → b < 256 → v < (high * 256 + b + 1) * p → v < (high + 1) * (256 * p)
widen high b p v hb h = omega (arith, scale (high * 256 + b + 1) (high * 256 + 256) (omega arith))
  where
    scale : (a c : ℕ) → a ≤ c → a * p ≤ c * p
    scale a c h = grind arith

-- Bytes spell a number that fits them.
set_bytes_lt :
    (high : ℕ) (bs : Bytes) → All IsByte bs → set_bytes high bs < (high + 1) * 256 ^ length bs
unfolding set_bytes
set_bytes_lt high [] _ = omega arith
set_bytes_lt high (b ∷ bs) (hb, h) =
    rw (pow_suc (length bs))
      (widen high b (256 ^ length bs) _ hb (set_bytes_lt (high * 256 + b) bs h))
