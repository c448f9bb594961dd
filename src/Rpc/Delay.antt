-- ===== src/Rpc/Delay.antt =====
-- How long a call waits before it is tried again.
use chain_watch.Prelude.{ℕ, zero, suc, ◌+◌, ◌*◌, ◌≤◌, ◌≡◌, refl, ltb, if◌then◌else◌, arith}
use chain_watch.Rpc.{RpcContext, grow}

abbrev pub min_of : ℕ → ℕ → ℕ
min_of a b = if ltb b a then b else a

grow-over : (rounds cap delay : ℕ) → cap ≤ delay → grow rounds cap delay ≡ delay
unfolding grow
grow-over zero cap delay h = refl
grow-over (suc rounds) cap delay h = ground arith

-- Doubling `rounds` times, without the tests.
abbrev pub doubled : ℕ → ℕ → ℕ
doubled zero delay = delay
doubled (suc rounds) delay = doubled rounds (delay * 2)

-- What a jitter fraction of 0.2 makes of a delay: between 0.8 and 1.2 of it, cut off to a whole number.
-- The multiplication in float64 is off by far less than one nanosecond on delays of up to `longest`.
abbrev pub JitterWithin : {W : Type 0} → RpcContext W → ℕ → Type 0
JitterWithin {W} context longest =
    (w : W) (delay : ℕ)
    → delay ≤ longest
    → (8 * delay ≤ 10 * (context.jittered w delay + 1))
      × (10 * context.jittered w delay ≤ 12 * delay)
