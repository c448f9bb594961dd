-- ===== src/Store/Reader/Order.antt =====
-- Rows in the order of the reader: what sorting, filtering and a cursor do to a list without ties.
use chain_watch.Prelude.{
  ℕ, ◌^◌, ◌<◌, ◌≡◌, refl, true, false, ◌&&◌, ◌||◌, ◌==◌, nat_eq, List, [], ◌∷◌, All, ltb, arith,
}
use chain_watch.Store.{TransferRow, signed_lt}
use chain_watch.Store.Reader.{precedes}

-- Neither number of the row is negative.
abbrev pub IsNatural : TransferRow → Type 0
IsNatural row = (row.block_number < 2 ^ 63) × (row.log_index < 2 ^ 63)

abbrev pub Differ : TransferRow → TransferRow → Type 0
Differ a b = (a.block_number == b.block_number && a.log_index == b.log_index) ≡ false

-- No two rows have the same block number and log index.
abbrev pub NoTies : List TransferRow → Type 0
NoTies [] = Unit
NoTies (x ∷ xs) = All (Differ x) xs × NoTies xs

abbrev pub Precedes : TransferRow → TransferRow → Type 0
Precedes a b = precedes a b ≡ true

-- Each row comes before all that follow it.
abbrev pub InOrder : List TransferRow → Type 0
InOrder [] = Unit
InOrder (x ∷ xs) = All (Precedes x) xs × InOrder xs

signed_lt-natural : (a b : ℕ) → a < 2 ^ 63 → b < 2 ^ 63 → signed_lt a b ≡ ltb a b
signed_lt-natural a b p q = ground arith

precedes-natural :
    (a b : TransferRow)
    → IsNatural a
    → IsNatural b
    → precedes a b ≡ (
        ltb b.block_number a.block_number
        || (b.block_number == a.block_number && ltb b.log_index a.log_index))
unfolding precedes
precedes-natural a b (p, q) (r, s) =
    rw
      (
        signed_lt-natural b.block_number a.block_number r p,
        signed_lt-natural b.log_index a.log_index s q,
      )
      refl

pub Precedes-trans :
    (a b c : TransferRow)
    → IsNatural a
    → IsNatural b
    → IsNatural c
    → Precedes a b
    → Precedes b c
    → Precedes a c
Precedes-trans a b c na nb nc h k =
    ground
      (arith, precedes-natural a b na nb, precedes-natural b c nb nc, precedes-natural a c na nc)

pub precedes_asym :
    (a b : TransferRow) → IsNatural a → IsNatural b → Precedes a b → precedes b a ≡ false
precedes_asym a b na nb h = ground (arith, precedes-natural a b na nb, precedes-natural b a nb na)

pub precedes_irrefl : (a : TransferRow) → IsNatural a → precedes a a ≡ false
precedes_irrefl a na = ground (arith, precedes-natural a a na na)

pub precedes_total :
    (a b : TransferRow)
    → IsNatural a
    → IsNatural b
    → Differ a b
    → precedes b a ≡ false
    → Precedes a b
precedes_total a b na nb d h =
    ground (arith, precedes-natural a b na nb, precedes-natural b a nb na)
