-- ===== src/Store/Blocks/Records.antt =====
-- What the upsert of a block leaves in indexed_blocks.
use chain_watch.Prelude.{
  ℕ, ◌^◌, ◌<◌, ◌≡◌, ◌∙◌, refl, sym, ap, ◌==◌, nat_eq, string_eq, beq_eq, Option, none, some,
  Bool-cases, inl, inr, lookup, insert, lookup-insert, arith, if◌then◌else◌,
}
use mathlib.Core.Option
use chain_watch.Effects.Ends.{Ends, Ends-ok, Ends-err}
use chain_watch.Domain.{BlockHash}
use chain_watch.Store.{BlockRow, Tables, is_negative}
use chain_watch.Store.Valid.{KeysFit, All-insert}
use chain_watch.Store.Blocks.{upserted, upsert_block_row}

abbrev pub row_hash : Option BlockRow → Option BlockHash
row_hash = Option.map (λ row. row.block_hash)

abbrev pub hash_in : Tables → ℕ → Option BlockHash
hash_in t n = row_hash (lookup n t.indexed_blocks)

-- The parent hash that a row keeps: its own, or that of the block where it has none.
abbrev pub parent_after : Option BlockRow → BlockHash → BlockHash
parent_after none parent = parent
parent_after (some old) parent = if old.parent_hash == "" then parent else old.parent_hash

-- A block is recorded under its number, that is not above the BIGINTs and had no other hash; nothing
-- else changes.
pub record Recorded (number : ℕ) (hash parent : BlockHash) (before after : Tables) : Type 0 where
  pub in_range : number < 2 ^ 63
  pub hashes : (n : ℕ) → hash_in after n ≡ (if number == n then some hash else hash_in before n)
  pub blocks :
      (n : ℕ)
      → lookup n after.indexed_blocks ≡ (
          if number == n
          then some (record {
            block_hash = hash;
            parent_hash = parent_after (lookup number before.indexed_blocks) parent;
          })
          else lookup n before.indexed_blocks)
  pub agrees : (h : BlockHash) → hash_in before number ≡ some h → h ≡ hash
  pub keys : KeysFit before → KeysFit after
  pub same_checkpoints : after.checkpoints ≡ before.checkpoints
  pub same_transfers : after.erc20_transfers ≡ before.erc20_transfers
  pub same_metadata : after.token_metadata ≡ before.token_metadata

hash-insert :
    (number n : ℕ) (row : BlockRow) (t : Tables)
    → row_hash (lookup n (insert number row t.indexed_blocks))
      ≡ (if number == n then some row.block_hash else hash_in t n)
hash-insert number n row t = ground (arith, lookup-insert number n row t.indexed_blocks)

none-some : {h : BlockHash} → ◌≡◌ {A = Option BlockHash} none (some h) → ⊥
none-some e = cc

some_eq : {g h : BlockHash} → ◌≡◌ {A = Option BlockHash} (some g) (some h) → g ≡ h
some_eq e = cc

upserted-Ends :
    (number : ℕ) (row : BlockRow) (found : Option BlockRow) (t : Tables)
    → number < 2 ^ 63
    → lookup number t.indexed_blocks ≡ found
    → Ends
        (λ h after. Recorded number row.block_hash row.parent_hash t after)
        (λ after. after ≡ t)
        (upserted number row found t)
upserted-Ends number row none t low at = Ends-ok _ _ (record {
  in_range = low;
  hashes = λ n. hash-insert number n row t;
  blocks = λ n. rw at (lookup-insert number n row t.indexed_blocks);
  agrees = λ h old. absurd (none-some (sym (ap row_hash at) ∙ old));
  keys = λ fit. All-insert _ number row t.indexed_blocks low fit;
  same_checkpoints = refl;
  same_transfers = refl;
  same_metadata = refl;
})
upserted-Ends number row (some stored) t low at =
    elim (Bool-cases (stored.block_hash == row.block_hash)) [
      | inr differ ↦ rw differ (Ends-err _ t refl)
      | inl same ↦ rw same (
          Ends-ok _ _ (record {
            in_range = low;
            hashes = λ n.
                hash-insert number n _ t
                ∙ ap (λ h. if number == n then some h else hash_in t n)
                    (beq_eq stored.block_hash row.block_hash same);
            blocks = λ n.
                rw (at, ← beq_eq stored.block_hash row.block_hash same)
                  (lookup-insert number n _ t.indexed_blocks);
            agrees = λ h old.
                some_eq (sym old ∙ ap row_hash at) ∙ beq_eq stored.block_hash row.block_hash same;
            keys = λ fit. All-insert _ number _ t.indexed_blocks low fit;
            same_checkpoints = refl;
            same_transfers = refl;
            same_metadata = refl;
          }))
    ]

pub upsert_block_row-Ends :
    (number : ℕ) (row : BlockRow) (t : Tables)
    → Ends
        (λ h after. Recorded number row.block_hash row.parent_hash t after)
        (λ after. after ≡ t)
        (upsert_block_row number row t)
unfolding upsert_block_row
upsert_block_row-Ends number row t = elim (Bool-cases (is_negative number)) [
  | inl negative ↦ rw negative (Ends-err _ t refl)
  | inr low ↦ rw low (upserted-Ends number row _ t (ground arith) refl)
]
