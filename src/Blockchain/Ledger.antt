-- ===== src/Blockchain/Ledger.antt =====
-- What transactions and blocks do to the ledger.
use chain_watch.Prelude.{
  ℕ, ◌^◌, ◌≤◌, ◌<◌, ◌≡◌, ◌≢◌, refl, ap, ◌∙◌, Bool, true, false, ◌||◌, Option, none, some, List, [],
  ◌∷◌, ◌++◌, ◌==◌, string_eq, All, All-map, lookup, insert, lookup-insert, ltb_false→le, Bool-cases,
  inl, inr, arith, ltb,
}
use chain_watch.Errors.{Result, ok, err, is_nil}
use chain_watch.Effects.Ends.{
  Ends, Ends-ok, Ends-err, Ends-pure, Ends-bind, Ends-wrapping, Ends-mono,
}
use chain_watch.Domain.{TransactionHash}
use chain_watch.Blockchain.{
  Transaction, Block, Blockchain, validate, or_zero, or_false, balance_of, is_transaction_processed,
  transfer, apply_transaction, process_transaction, process_all, temp_blockchain, adopt,
  process_block,
}
use chain_watch.Blockchain.Balances.{Paid, total, total-transfer, transfer-Moves}

pub record Applied (txs : List Transaction) (before after : Blockchain) : Type 0 where
  pub same_total : total after.balances ≡ total before.balances
  pub paid : Paid txs before.balances after.balances
  pub kept :
      (h : TransactionHash)
      → is_transaction_processed h before ≡ true
      → is_transaction_processed h after ≡ true
  pub marked : All (λ tx. is_transaction_processed tx.hash after ≡ true) txs
  pub fresh : All (λ tx. is_transaction_processed tx.hash before ≡ false) txs

processed-insert :
    (k h : TransactionHash) (m : List (TransactionHash × Bool))
    → or_false (lookup h (insert k true m)) ≡ (k == h || or_false (lookup h m))
processed-insert k h m = ground (arith, lookup-insert k h true m)

apply_transaction-Ends :
    (tx : Transaction) (bc : Blockchain) (found : Option ℕ)
    → lookup tx.from bc.balances ≡ found
    → is_transaction_processed tx.hash bc ≡ false
    → total bc.balances < 2 ^ 64
    → Ends
        (λ u after. Applied (tx ∷ []) bc after)
        (λ after. after ≡ bc)
        (apply_transaction tx found bc)
unfolding apply_transaction is_transaction_processed balance_of
apply_transaction-Ends tx bc none at new fits = Ends-err _ bc refl
apply_transaction-Ends tx bc (some n) at new fits = elim (Bool-cases (ltb n tx.value_wei)) [
  | inl poor ↦ rw poor (Ends-err _ bc refl)
  | inr rich ↦ rw rich (Ends-ok tt _ (applied n at (ltb_false→le n tx.value_wei rich)))
]
  where
    applied :
        (n : ℕ)
        → lookup tx.from bc.balances ≡ some n
        → tx.value_wei ≤ n
        → Applied (tx ∷ []) bc (record bc {
          balances = transfer tx n bc.balances;
          processed_transactions = insert tx.hash true bc.processed_transactions;
        })
    applied n at enough = record {
      same_total = total-transfer tx n bc.balances (ap or_zero at) enough fits;
      paid = (_, transfer-Moves tx n bc.balances (ap or_zero at) enough fits, λ x. refl);
      kept = λ h old. ground (arith, processed-insert tx.hash h bc.processed_transactions);
      marked = (
        ground (
          arith,
          string_eq.beq_iff tx.hash tx.hash,
          processed-insert tx.hash tx.hash bc.processed_transactions,
        ),
        tt,
      );
      fresh = (new, tt);
    }

-- With a total of the balances below 2^64: a transaction that is processed was new, is marked as
-- processed and moves its value, which the sender had, from the sender to the receiver, so that every other
-- balance and the total of the balances are kept; one that is refused changes nothing.
pub process_transaction-Ends :
    (tx : Transaction) (bc : Blockchain)
    → total bc.balances < 2 ^ 64
    → Ends (λ u after. Applied (tx ∷ []) bc after) (λ after. after ≡ bc) (process_transaction tx bc)
unfolding process_transaction
process_transaction-Ends tx bc fits = elim (Bool-cases (is_nil (validate tx))) [
  | inl valid ↦ elim (Bool-cases (is_transaction_processed tx.hash bc)) [
    | inl old ↦ rw (valid, old) (Ends-err _ bc refl)
    | inr new ↦ rw (valid, new) (apply_transaction-Ends tx bc _ refl new fits)
  ]
  | inr invalid ↦ rw invalid (Ends-err _ bc refl)
]

Paid-cons :
    (tx : Transaction) (txs : List Transaction) (a b c : Blockchain)
    → Paid (tx ∷ []) a.balances b.balances
    → Paid txs b.balances c.balances
    → Paid (tx ∷ txs) a.balances c.balances
Paid-cons tx txs a b c (between, moves, same) rest =
    (b.balances, (moves.0, λ x. omega (arith, moves.1 x, same x)), rest)

Applied-cons :
    {tx : Transaction} {txs : List Transaction} {a b c : Blockchain}
    → Applied (tx ∷ []) a b
    → Applied txs b c
    → Applied (tx ∷ txs) a c
Applied-cons {tx} {txs} {a} {b} {c} first rest = record {
  same_total = rest.same_total ∙ first.same_total;
  paid = Paid-cons tx txs a b c first.paid rest.paid;
  kept = λ h old. rest.kept h (first.kept h old);
  marked = (rest.kept tx.hash first.marked.0, rest.marked);
  fresh = (first.fresh.0, All-map _ _ txs (λ t new. before t.hash new) rest.fresh);
}
  where
    before :
        (h : TransactionHash)
        → is_transaction_processed h b ≡ false
        → is_transaction_processed h a ≡ false
    before h new = elim (Bool-cases (is_transaction_processed h a)) [
      | inl old ↦ cc (first.kept h old)
      | inr fine ↦ fine
    ]

pub process_all-Ends :
    (txs : List Transaction) (bc : Blockchain)
    → total bc.balances < 2 ^ 64
    → Ends (λ u after. Applied txs bc after) (λ after. Unit) (process_all txs bc)
unfolding process_all
process_all-Ends [] bc fits =
    Ends-pure tt bc
      (record { same_total = refl; paid = λ x. refl; kept = λ h old. old; marked = tt; fresh = tt })
process_all-Ends (tx ∷ txs) bc fits =
    Ends-bind (λ u after. Applied (tx ∷ []) bc after) _ _ bc
      (Ends-wrapping _ _ bc
        (Ends-mono _ (process_transaction-Ends tx bc fits) (λ u after h. h) (λ after h. tt)))
      λ u between first.
        Ends-mono _ (process_all-Ends txs between (omega (arith, first.same_total)))
          (λ v after rest. Applied-cons first rest) (λ after h. tt)

-- What a block that is accepted leaves: its transactions applied and the block behind the others.
pub record Accepted (block : Block) (before after : Blockchain) : Type 0 where
  pub applied : Applied block.transactions before after
  pub appended : after.blocks ≡ before.blocks ++ block ∷ []

adopt-Ends :
    (block : Block) (bc : Blockchain) (r : Result (Unit {0}) × Blockchain)
    → Ends (λ u after. Applied block.transactions (temp_blockchain bc) after) (λ after. Unit) r
    → Ends (λ u after. Accepted block bc after) (λ after. after ≡ bc) (adopt block bc r)
unfolding adopt is_transaction_processed
adopt-Ends block bc (err e, temp) h = Ends-err e bc refl
adopt-Ends block bc (ok u, temp) h =
    let done = h.returns u refl in
    Ends-ok tt _ (record {
      applied = record {
        same_total = done.same_total;
        paid = done.paid;
        kept = done.kept;
        marked = done.marked;
        fresh = done.fresh;
      };
      appended = refl;
    })

-- With a total of the balances below 2^64, ProcessBlock is atomic: either each transaction of the block was
-- new, is marked as processed and, one after the other, moved its value from its sender to its receiver, the
-- total of the balances is what it was and the block is appended, or there is an error
-- and the ledger is what it was.
pub process_block-Ends :
    (block : Block) (bc : Blockchain)
    → total bc.balances < 2 ^ 64
    → Ends (λ u after. Accepted block bc after) (λ after. after ≡ bc) (process_block block bc)
unfolding process_block
process_block-Ends block bc fits =
    adopt-Ends block bc _ (process_all-Ends block.transactions (temp_blockchain bc) fits)

-- A block with a transaction that was accepted is refused when it comes again, if the total of the balances is below 2^64.
process_block_once :
    (block : Block) (bc : Blockchain) (tx : Transaction) (txs : List Transaction)
    → total bc.balances < 2 ^ 64
    → block.transactions ≡ tx ∷ txs
    → (process_block block bc).0 ≡ ok tt
    → (process_block block (process_block block bc).1).0 ≢ ok tt
process_block_once block bc tx txs fits holds accepted again =
    let first = (process_block-Ends block bc fits).returns tt accepted in
    let still : total (process_block block bc).1.balances < 2 ^ 64 =
      omega (arith, first.applied.same_total) in
    let second = (process_block-Ends block _ still).returns tt again in
    clash _ block.transactions holds first.applied.marked second.applied.fresh
  where
    clash :
        (mid : Blockchain) (ts : List Transaction)
        → ts ≡ tx ∷ txs
        → All (λ t. is_transaction_processed t.hash mid ≡ true) ts
        → All (λ t. is_transaction_processed t.hash mid ≡ false) ts
        → ⊥
    clash mid [] e old new = cc e
    clash mid (t ∷ ts) e old new = cc (old.0, new.0)
