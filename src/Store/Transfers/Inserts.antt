-- ===== src/Store/Transfers/Inserts.antt =====
-- What the inserts of a block leave in erc20_transfers.
use chain_watch.Prelude.{
  ℕ, ◌≡◌, ◌∙◌, refl, sym, ap, String, true, false, ◌||◌, ◌&&◌, nat_eq, string_eq, beq_refl, Option,
  none, some, List, [], ◌∷◌, ◌++◌, append-nil, append_assoc, All, Bool-cases, inl, inr, ℤ, arith,
}
use chain_watch.Errors.{GoError}
use chain_watch.Effects.Ends.{
  Ends, Ends-ok, Ends-err, Ends-pure, Ends-fail, Ends-bind, Ends-wrapping, Ends-mono,
}
use chain_watch.Domain.{TransactionHash, Erc20Transfer, BlockTransferIndex}
use chain_watch.Store.{TransferRow, Tables, Database}
use chain_watch.Store.Rules.{statement-Ends}
use chain_watch.Store.Transfers.Added.{HasRow, has_key-HasRow, RowOf, Added, Added-cons}
use chain_watch.Store.Transfers.{
  has_key, fits_integer, fits_numeric, insert_transfer_row, transfer_row, insert_transfer,
  insert_transfers,
}

-- Rows are only added, exactly those of the transfers whose key has none, and then each transfer has a
-- row under its key. No other table changes.
pub record Inserted (value_text : ℤ → String) (index : BlockTransferIndex)
    (transfers : List Erc20Transfer) (before after : Tables) : Type 0 where
  pub new_rows : List TransferRow
  pub added : Added value_text index transfers before.erc20_transfers new_rows
  pub appended : after.erc20_transfers ≡ before.erc20_transfers ++ new_rows
  pub keyed :
      All
        (λ (t : Erc20Transfer). has_key t.transaction_hash t.log_index after.erc20_transfers ≡ true)
        transfers
  pub same_checkpoints : after.checkpoints ≡ before.checkpoints
  pub same_blocks : after.indexed_blocks ≡ before.indexed_blocks
  pub same_metadata : after.token_metadata ≡ before.token_metadata

has_key-append :
    (h : TransactionHash) (n : ℕ) (xs ys : List TransferRow)
    → has_key h n (xs ++ ys) ≡ (has_key h n xs || has_key h n ys)
unfolding has_key
has_key-append h n [] ys = refl
has_key-append h n (x ∷ xs) ys = ground (arith, has_key-append h n xs ys)

has_key-grows :
    (h : TransactionHash) (n : ℕ) (xs ys zs : List TransferRow)
    → zs ≡ xs ++ ys
    → has_key h n xs ≡ true
    → has_key h n zs ≡ true
has_key-grows h n xs ys zs e old = rw e (ground (arith, has_key-append h n xs ys))

has_key_added :
    (r : TransferRow) (rows : List TransferRow)
    → has_key r.transaction_hash r.log_index (rows ++ r ∷ []) ≡ true
unfolding has_key
has_key_added r [] = rw (beq_refl r.transaction_hash, beq_refl r.log_index) refl
has_key_added r (x ∷ rows) = ground (arith, has_key_added r rows)

Inserted-none :
    (value_text : ℤ → String) (index : BlockTransferIndex) (t : Tables)
    → Inserted value_text index [] t t
Inserted-none value_text index t = record {
  new_rows = [];
  added = refl;
  appended = sym (append-nil _);
  keyed = tt;
  same_checkpoints = refl;
  same_blocks = refl;
  same_metadata = refl;
}

Inserted-cons :
    {value_text : ℤ → String} {index : BlockTransferIndex} {transfer : Erc20Transfer}
    {transfers : List Erc20Transfer} {a b c : Tables}
    → Inserted value_text index (transfer ∷ []) a b
    → Inserted value_text index transfers b c
    → Inserted value_text index (transfer ∷ transfers) a c
Inserted-cons {value_text} {index} {transfer} {transfers} {a} {b} {c} first rest = record {
  new_rows = first.new_rows ++ rest.new_rows;
  added =
      Added-cons value_text index transfer transfers a.erc20_transfers first.new_rows rest.new_rows
        first.added (rw first.appended at rest.added);
  appended =
      rest.appended
      ∙ ap (λ rows. rows ++ rest.new_rows) first.appended
      ∙ append_assoc a.erc20_transfers _ _;
  keyed = (
    has_key-grows transfer.transaction_hash transfer.log_index b.erc20_transfers rest.new_rows
        c.erc20_transfers rest.appended first.keyed.0,
    rest.keyed,
  );
  same_checkpoints = rest.same_checkpoints ∙ first.same_checkpoints;
  same_blocks = rest.same_blocks ∙ first.same_blocks;
  same_metadata = rest.same_metadata ∙ first.same_metadata;
}

module _ (fault : ℕ → GoError) (value_text : ℤ → String) (index : BlockTransferIndex) where
  insert_row-Ends :
      (transfer : Erc20Transfer) (value : ℤ) (t : Tables)
      → transfer.value ≡ some value
      → Ends
          (λ u after. Inserted value_text index (transfer ∷ []) t after)
          (λ after. Unit)
          (insert_transfer_row value (transfer_row fault value_text index transfer value) t)
  unfolding insert_transfer_row transfer_row
  insert_row-Ends transfer value t has_value =
      elim (Bool-cases (fits_integer transfer.log_index && fits_numeric value)) [
        | inr too_large ↦ rw too_large (Ends-err _ _ tt)
        | inl fits ↦
            elim (Bool-cases
              (has_key transfer.transaction_hash transfer.log_index t.erc20_transfers)) [
                | inl old ↦
                    rw (fits, old)
                      (Ends-ok tt _ (record {
                        new_rows = [];
                        added = inl (
                          (has_key-HasRow transfer.transaction_hash transfer.log_index
                                t.erc20_transfers).0
                              old,
                          refl,
                        );
                        appended = sym (append-nil _);
                        keyed = (old, tt);
                        same_checkpoints = refl;
                        same_blocks = refl;
                        same_metadata = refl;
                      }))
                | inr fresh ↦
                    rw (fits, fresh)
                      (Ends-ok tt _ (record {
                        new_rows = transfer_row fault value_text index transfer value ∷ [];
                        added = inr (new_key fresh, (_, _, own_row, refl, refl));
                        appended = refl;
                        keyed = (
                          has_key_added (transfer_row fault value_text index transfer value)
                              t.erc20_transfers,
                          tt,
                        );
                        same_checkpoints = refl;
                        same_blocks = refl;
                        same_metadata = refl;
                      }))
              ]
      ]
    where
      new_key :
          has_key transfer.transaction_hash transfer.log_index t.erc20_transfers ≡ false
          → HasRow transfer.transaction_hash transfer.log_index t.erc20_transfers
          → ⊥
      new_key fresh row =
          let old : has_key transfer.transaction_hash transfer.log_index t.erc20_transfers ≡ true =
            (has_key-HasRow transfer.transaction_hash transfer.log_index t.erc20_transfers).1 row in
          cc

      own_row : RowOf value_text index transfer (transfer_row fault value_text index transfer value)
      own_row = record {
        own_transaction = refl;
        own_log = refl;
        of_block = refl;
        of_hash = refl;
        of_token = refl;
        sender = refl;
        receiver = refl;
        amount = (value, has_value, refl);
      }

  insert_transfer-Ends :
      (transfer : Erc20Transfer) (value : Option ℤ) (d : Database)
      → transfer.value ≡ value
      → Ends
          (λ u after. Inserted value_text index (transfer ∷ []) d.tables after.tables)
          (λ after. Unit)
          (insert_transfer fault value_text index transfer value d)
  unfolding insert_transfer
  insert_transfer-Ends transfer none d has_value = Ends-fail _ d tt
  insert_transfer-Ends transfer (some value) d has_value =
      Ends-wrapping _ _ d
        (statement-Ends fault _ d (insert_row-Ends transfer value d.tables has_value) tt)

  pub insert_transfers-Ends :
      (transfers : List Erc20Transfer) (d : Database)
      → Ends
          (λ u after. Inserted value_text index transfers d.tables after.tables)
          (λ after. Unit)
          (insert_transfers fault value_text index transfers d)
  unfolding insert_transfers
  insert_transfers-Ends [] d = Ends-pure tt d (Inserted-none value_text index d.tables)
  insert_transfers-Ends (transfer ∷ transfers) d =
      Ends-bind (λ u after. Inserted value_text index (transfer ∷ []) d.tables after.tables) _ _ d
        (insert_transfer-Ends transfer transfer.value d refl)
        λ u between first.
          Ends-mono _ (insert_transfers-Ends transfers between)
            (λ v after rest. Inserted-cons first rest) (λ after h. tt)
