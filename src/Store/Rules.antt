-- ===== src/Store/Rules.antt =====
-- How statements and transactions end.
use chain_watch.Prelude.{ℕ, ◌≡◌, refl, String, Bool-cases, inl, inr}
use chain_watch.Errors.{GoError, is_nil, Result, ok, err}
use chain_watch.Effects.{Action}
use chain_watch.Effects.Ends.{Ends, Ends-ok, Ends-err}
use chain_watch.Store.{Tables, Database, counted, settle, statement, commit, finish, transaction}

module _ (fault : ℕ → GoError) where
  settle-Ends :
      {A : Type 0} {P : A → Tables → Type 0} {E : Tables → Type 0} (d : Database)
      (r : Result A × Tables)
      → Ends P E r
      → Ends (λ a after. P a after.tables) (λ after. E after.tables) (settle d r)
  settle-Ends d (ok a, t) h = Ends-ok a _ (h.returns a refl)
  settle-Ends d (err e, t) h = Ends-err e _ (h.fails e refl)

  -- A statement ends as its SQL does, or it fails with the tables as they were.
  pub statement-Ends :
      {A : Type 0} {P : A → Tables → Type 0} {E : Tables → Type 0}
      (sql : Tables → Result A × Tables) (d : Database)
      → Ends P E (sql d.tables)
      → E d.tables
      → Ends (λ a after. P a after.tables) (λ after. E after.tables) (statement fault sql d)
  unfolding statement
  statement-Ends sql d h unchanged = elim (Bool-cases (is_nil (fault d.statements))) [
    | inl carried ↦ rw carried (settle-Ends d (sql d.tables) h)
    | inr failed ↦ rw failed (Ends-err _ _ unchanged)
  ]

  commit-Ends :
      (Q : Tables → Type 0) (message : String) (before after : Database)
      → Q after.tables
      → Ends (λ u d. Q d.tables) (λ d. d.tables ≡ before.tables) (commit fault message before after)
  commit-Ends Q message before after h = elim (Bool-cases (is_nil (fault after.statements))) [
    | inl carried ↦ rw carried (Ends-ok tt _ h)
    | inr failed ↦ rw failed (Ends-err _ _ refl)
  ]

  finish-Ends :
      (Q : Tables → Type 0) (message : String) (before : Database) (r : Result Unit × Database)
      → Ends (λ u d. Q d.tables) (λ d. Unit) r
      → Ends (λ u d. Q d.tables) (λ d. d.tables ≡ before.tables) (finish fault message before r)
  finish-Ends Q message before (ok u, after) h =
      commit-Ends Q message before after (h.returns u refl)
  finish-Ends Q message before (err e, after) h = Ends-err e _ refl

  -- A transaction that returns no error leaves what its body leaves; one that fails leaves the tables as
  -- they were.
  pub transaction-Ends :
      (Q : Tables → Type 0) (begin_message commit_message : String) (body : Action Database Unit)
      (d : Database)
      → Ends (λ u after. Q after.tables) (λ after. Unit) (body (counted d))
      → Ends
          (λ u after. Q after.tables)
          (λ after. after.tables ≡ d.tables)
          (transaction fault begin_message commit_message body d)
  unfolding transaction
  transaction-Ends Q begin_message commit_message body d h =
      elim (Bool-cases (is_nil (fault d.statements))) [
        | inl carried ↦ rw carried (finish-Ends Q commit_message d _ h)
        | inr failed ↦ rw failed (Ends-err _ _ refl)
      ]

  -- A statement that writes and never refuses.
  pub write-Ends :
      (write : Tables → Tables) (d : Database)
      → Ends
          (λ u after. after.tables ≡ write d.tables)
          (λ after. Unit)
          (statement fault (λ t. (ok tt, write t)) d)
  write-Ends write d =
      statement-Ends {P = λ u t. t ≡ write d.tables} {E = λ t. Unit} _ d (Ends-ok tt _ refl) tt
