-- ===== src/Store/Blocks/Laws.antt =====
-- The PostgreSQL persistence meets what the reorg manager asks of a store, on tables that satisfy
-- their constraint.
use chain_watch.Prelude.{
  ℕ, ◌^◌, ◌<◌, ◌≡◌, ◌∙◌, refl, sym, ap, String, Bool, true, false, ◌==◌, nat_eq, string_eq,
  beq_refl, Option, none, some, Bool-cases, Option-cases, inl, inr, ℤ, leb, lookup, delete_where,
  lookup-delete_where, arith, if◌then◌else◌,
}
use native.Mathlib.Decide.{dec_lt}
use chain_watch.Errors.{GoError, Result, ok, err, sentinel, is, is_nil, no_rows, sentinel_eq, text}
use chain_watch.Effects.Ends.{
  Ends, Ends-ok, Ends-err, Ends-bind, Ends-mono, Ends-wrapping, Ends-classifying,
}
use chain_watch.Domain.{BlockHash, BlockCheckpoint}
use chain_watch.Store.{Tables, Database, statement, counted, signed_lt, is_negative}
use chain_watch.Store.Valid.{KeysFit, All-delete_where, lookup-negative}
use chain_watch.Store.Rules.{write-Ends, transaction-Ends}
use chain_watch.Store.Checkpoint.{scan_row, reading, loaded_checkpoint, select_checkpoint, load}
use chain_watch.Store.Blocks.{
  found_hash, transfers_up_to, PostgresBlockPersistence, ensure_indexed_block,
  load_indexed_block_hash, rollback_statements, rollback_to,
}
use chain_watch.Store.Blocks.Rows.{LeftUpTo, RowsFit, transfers_up_to-LeftUpTo}
use chain_watch.Store.Blocks.Records.{row_hash, hash_in, Recorded}
use chain_watch.Store.Blocks.Saves.{Moved, upsert_checkpoint-Ends, record_indexed_block-Ends}

-- What RollbackTo leaves: no hash and no transfer above the checkpoint, and the checkpoint moved.
pub record Rolled (name : String) (c : BlockCheckpoint) (before after : Tables) : Type 0 where
  pub hashes :
      KeysFit before
      → (n : ℕ) → hash_in after n ≡ (if leb n c.number then hash_in before n else none)
  pub rows :
      RowsFit before.erc20_transfers
      → LeftUpTo c.number before.erc20_transfers after.erc20_transfers
  pub same_metadata : after.token_metadata ≡ before.token_metadata
  pub moved :
      (m : String)
      → lookup m after.checkpoints ≡ (if name == m then some c else lookup m before.checkpoints)
  pub keys : KeysFit before → KeysFit after

hash-rollback :
    (c n : ℕ) (t : Tables)
    → c < 2 ^ 63
    → KeysFit t
    → row_hash (lookup n (delete_where (λ k. signed_lt c k) t.indexed_blocks))
      ≡ (if leb n c then hash_in t n else none)
hash-rollback c n t low fit = elim (dec_lt n (2 ^ 63)) [
  | yes small ↦ ground (arith, lookup-delete_where (λ k. signed_lt c k) n t.indexed_blocks)
  | no large ↦ ground (
    arith,
    lookup-delete_where (λ k. signed_lt c k) n t.indexed_blocks,
    lookup-negative n t.indexed_blocks (omega arith) fit,
  )
]

is-no_rows : is (sentinel no_rows) no_rows ≡ true
unfolding is
is-no_rows = beq_refl no_rows

no_row_ok :
    {A : Type 0} (e : GoError) (b : Option A) (missing : Bool)
    → missing ≡ true
    → (if missing then ok none else err e) ≡ ok b
    → b ≡ none
no_row_ok e b true same h = cc
no_row_ok e b false same h = cc

failed_ok :
    {A : Type 0} (e : GoError) (b : Option A) (missing : Bool)
    → missing ≡ false
    → (if missing then ok none else err e) ≡ ok b
    → ⊥
failed_ok e b true same h = cc
failed_ok e b false same h = cc

module _ (fault : ℕ → GoError) where
  -- A query of one row: what is made of its row, of no row, or of a failed query.
  reading-Ends :
      {A B : Type 0} (make : Result A → Result B) (select : Tables → Option A) (Q : B → Type 0)
      (d : Database)
      → ((a : A) (b : B) → select d.tables ≡ some a → make (ok a) ≡ ok b → Q b)
      → ((b : B) → select d.tables ≡ none → make (err (sentinel no_rows)) ≡ ok b → Q b)
      → ((k : ℕ) (b : B) → make (err (fault k)) ≡ ok b → Q b)
      → Ends
          (λ b after. Q b × (after.tables ≡ d.tables))
          (λ after. after.tables ≡ d.tables)
          (reading make (statement fault (λ t. scan_row (select t) t) d))
  unfolding statement
  reading-Ends {B = B} make select Q d found missing failed =
      elim (Bool-cases (is_nil (fault d.statements))) [
        | inr broken ↦
            rw broken
              (ends (make (err (fault d.statements))) (counted d) refl (failed d.statements))
        | inl carried ↦ elim (Option-cases (select d.tables)) [
          | inl none_there ↦
              rw (carried, none_there) (ends _ _ refl (λ b e. missing b none_there e))
          | inr (a, there) ↦ rw (carried, there) (ends _ _ refl (λ b e. found a b there e))
        ]
      ]
    where
      ends :
          (r : Result B) (after : Database)
          → after.tables ≡ d.tables
          → ((b : B) → r ≡ ok b → Q b)
          → Ends
              (λ b after. Q b × (after.tables ≡ d.tables))
              (λ after. after.tables ≡ d.tables)
              (r, after)
      ends (ok b) after same h = Ends-ok b after (h b refl, same)
      ends (err e) after same h = Ends-err e after same

  module _ (honest : (k : ℕ) → is (fault k) no_rows ≡ false) where
    pub load-Ends :
        (name : String) (d : Database)
        → Ends
            (λ found after. (found ≡ lookup name d.tables.checkpoints) × (after.tables ≡ d.tables))
            (λ after. after.tables ≡ d.tables)
            (load fault name d)
    unfolding load select_checkpoint
    load-Ends name d = Ends-classifying _ _ _ d (
        reading-Ends loaded_checkpoint (λ t. lookup name t.checkpoints)
          (λ found. found ≡ lookup name d.tables.checkpoints) d
          (λ c b at e. present c (is_negative c.number) b at e)
          (λ b at e. no_row_ok _ b _ is-no_rows e ∙ sym at)
          (λ k b e. absurd (failed_ok _ b _ (honest k) e)))
      where
        present :
            (c : BlockCheckpoint) (negative : Bool) (b : Option BlockCheckpoint)
            → lookup name d.tables.checkpoints ≡ some c
            → (if negative
                then err (text "invalid negative checkpoint block number: %d")
                else ok (some c))
              ≡ ok b
            → b ≡ lookup name d.tables.checkpoints
        present c true b at e = cc
        present c false b at e = cc

    module _ (value_text : ℤ → String) (s : PostgresBlockPersistence) where
      pub load_hash-Ends :
          (n : ℕ) (d : Database)
          → Ends
              (λ found after. (found ≡ hash_in d.tables n) × (after.tables ≡ d.tables))
              (λ after. after.tables ≡ d.tables)
              (load_indexed_block_hash fault value_text s n d)
      unfolding load_indexed_block_hash
      load_hash-Ends n d = Ends-classifying _ _ _ d (
          reading-Ends found_hash (λ t. lookup n t.indexed_blocks)
            (λ found. found ≡ hash_in d.tables n) d (λ row b at e. ok_same e ∙ sym (ap row_hash at))
            (λ b at e. no_row_ok _ b _ is-no_rows e ∙ sym (ap row_hash at))
            (λ k b e. absurd (failed_ok _ b _ (honest k) e)))
        where
          ok_same :
              {a b : Option BlockHash} → ◌≡◌ {A = Result (Option BlockHash)} (ok a) (ok b) → b ≡ a
          ok_same e = cc

  module _ (value_text : ℤ → String) (s : PostgresBlockPersistence) where
    pub ensure-Ends :
        (c : BlockCheckpoint) (d : Database)
        → Ends
            (λ u after. Recorded c.number c.hash "" d.tables after.tables)
            (λ after. after.tables ≡ d.tables)
            (ensure_indexed_block fault value_text s c d)
    unfolding ensure_indexed_block
    ensure-Ends c d =
        Ends-classifying _ _ _ d (record_indexed_block-Ends fault value_text s c.number c.hash "" d)

    rollback_statements-Ends :
        (c : BlockCheckpoint) (d : Database)
        → Ends
            (λ u after. Rolled s.checkpoint_name c d.tables after.tables)
            (λ after. Unit)
            (rollback_statements fault value_text s c d)
    unfolding rollback_statements
    rollback_statements-Ends c d =
        Ends-bind
          (λ u after. after.tables ≡ record (d.tables) {
            erc20_transfers = transfers_up_to c.number d.tables.erc20_transfers;
          })
          _ _ d (Ends-wrapping _ _ d (write-Ends fault _ d))
          λ u d₁ first.
            Ends-bind
              (λ v after. after.tables ≡ record (d₁.tables) {
                indexed_blocks = delete_where (λ n. signed_lt c.number n) d₁.tables.indexed_blocks;
              })
              _ _ d₁ (Ends-wrapping _ _ d₁ (write-Ends fault _ d₁))
              λ v d₂ second. Ends-wrapping _ _ d₂ (
                Ends-mono _ (upsert_checkpoint-Ends fault s.checkpoint_name c d₂)
                  (λ w after h. rolled d₁.tables d₂.tables after.tables first second h.0 h.1)
                  (λ after h. tt))
      where
        rolled :
            (t₁ t₂ t : Tables)
            → t₁ ≡ record (d.tables) {
              erc20_transfers = transfers_up_to c.number d.tables.erc20_transfers;
            }
            → t₂ ≡ record t₁ {
              indexed_blocks = delete_where (λ n. signed_lt c.number n) t₁.indexed_blocks;
            }
            → Moved s.checkpoint_name c t₂ t
            → c.number < 2 ^ 63
            → Rolled s.checkpoint_name c d.tables t
        rolled t₁ t₂ t first second moved low =
            let blocks : t.indexed_blocks
                ≡ delete_where (λ n. signed_lt c.number n) d.tables.indexed_blocks =
              moved.same_blocks
              ∙ ap (λ (x : Tables). x.indexed_blocks) second
              ∙ ap (λ (x : Tables). delete_where (λ n. signed_lt c.number n) x.indexed_blocks)
                  first in
            let points : t₂.checkpoints ≡ d.tables.checkpoints =
              ap (λ (x : Tables). x.checkpoints) second
              ∙ ap (λ (x : Tables). x.checkpoints) first in
            record {
              hashes = λ fit n. rw blocks (hash-rollback c.number n d.tables low fit);
              rows = λ fit.
                  let left : t.erc20_transfers ≡ transfers_up_to c.number d.tables.erc20_transfers =
                    moved.same_transfers
                    ∙ ap (λ (x : Tables). x.erc20_transfers) second
                    ∙ ap (λ (x : Tables). x.erc20_transfers) first in
                  rw left (transfers_up_to-LeftUpTo c.number d.tables.erc20_transfers low fit);
              same_metadata =
                  moved.same_metadata
                  ∙ ap (λ (x : Tables). x.token_metadata) second
                  ∙ ap (λ (x : Tables). x.token_metadata) first;
              moved = λ m. rw (← points) (moved.names m);
              keys = λ fit. rw blocks (All-delete_where _ _ d.tables.indexed_blocks fit);
            }

    -- RollbackTo is atomic, whatever statement fails. Without an error the checkpoint is moved and no
    -- other, and the metadata is as it was; if the block numbers of the transfers are 64-bit patterns,
    -- exactly the transfers whose block is above the checkpoint are gone and the others are left in their
    -- order; if no block number in indexed_blocks was negative, exactly the hashes above the checkpoint
    -- are gone. With an error the tables are as they were.
    pub rollback_to-Ends :
        (c : BlockCheckpoint) (d : Database)
        → Ends
            (λ u after. Rolled s.checkpoint_name c d.tables after.tables)
            (λ after. after.tables ≡ d.tables)
            (rollback_to fault value_text s c d)
    unfolding rollback_to
    rollback_to-Ends c d = Ends-classifying _ _ _ d (
        transaction-Ends fault (Rolled s.checkpoint_name c d.tables) _ _ _ d
          (rollback_statements-Ends c (counted d)))
