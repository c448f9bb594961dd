-- ===== src/Store/Checkpoint.antt =====
-- internal/store/postgres_checkpoint.go.
use chain_watch.Prelude.{
  ℕ, ◌^◌, String, Option, none, some, string_eq, lookup, insert, leb, if◌then◌else◌,
}
use chain_watch.Errors.{GoError, Result, ok, err, text, wrapped, sentinel, no_rows, is, database}
use chain_watch.Effects.{Action, fail, wrapping, classifying}
use chain_watch.Domain.{BlockCheckpoint}
use chain_watch.Store.{Tables, Database, statement, is_negative}

-- `QueryRow(...).Scan`: no row is the error pgx.ErrNoRows.
abbrev pub scan_row : {A : Type 0} → Option A → Tables → Result A × Tables
scan_row none t = (err (sentinel no_rows), t)
scan_row (some a) t = (ok a, t)

-- Behind the query of Load.
abbrev pub loaded_checkpoint : Result BlockCheckpoint → Result (Option BlockCheckpoint)
loaded_checkpoint (err e) =
    if is e no_rows then ok none else err (wrapped "failed to load checkpoint %q" e)
loaded_checkpoint (ok checkpoint) =
    if is_negative checkpoint.number
    then err (text "invalid negative checkpoint block number: %d")
    else ok (some checkpoint)

-- A call that reads: what it makes of the answer.
abbrev pub reading :
    {A B : Type 0} → (Result A → Result B) → Result A × Database → Result B × Database
reading make (r, d) = (make r, d)

module _ (fault : ℕ → GoError) (name : String) where
  unfoldable pub select_checkpoint : Action Database BlockCheckpoint
  select_checkpoint = statement fault (λ t. scan_row (lookup name t.checkpoints) t)

  unfoldable pub load : Action Database (Option BlockCheckpoint)
  load =
      classifying database "load checkpoint" (λ d. reading loaded_checkpoint (select_checkpoint d))

  unfoldable pub upsert_checkpoint : BlockCheckpoint → Action Database (Unit {0})
  upsert_checkpoint checkpoint =
      if leb (2 ^ 63) checkpoint.number
      then fail (text "checkpoint block number is too large for PostgreSQL BIGINT: %d")
      else statement fault
          (λ t. (ok tt, record t { checkpoints = insert name checkpoint t.checkpoints }))

  unfoldable pub save : BlockCheckpoint → Action Database (Unit {0})
  save checkpoint =
      classifying database "save checkpoint"
        (wrapping "failed to save checkpoint %q" (upsert_checkpoint checkpoint))
