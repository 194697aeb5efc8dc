-- ===== src/Engine.antt =====
-- SORM/sorm.go: transactions, and the columns that a migration adds and deletes.
pub mod Difference
pub mod Transactions
pub mod Migration
pub mod Opening
mod Tests
use golang_frame_practice.Common.Assoc.{insert}
use golang_frame_practice.Common.Outcome.{Outcome, ok, err, panics, hangs, exits}
use golang_frame_practice.Common.{
  ◌==◌, Bool, true, false, Option, none, some, List, [], ◌∷◌, ◌++◌, lookup, length, if◌then◌else◌,
  Text, text, text_dec,
}
use golang_frame_practice.Common.Strings.{join}
use golang_frame_practice.Clause.{Arg}
use golang_frame_practice.Schema.{Field, Schema, Object, get_field}
use golang_frame_practice.Session.{
  Database, Session, Action, after, ◌>>=◌, return, lift, raw, get_ref_table, new_session, begin,
  commit, rollback, exec, query,
}
use golang_frame_practice.Session.Tables.{model, has_table}

-- The map that `difference` makes of its second list.
unfoldable pub marked : List Text → List (Text × Bool) → List (Text × Bool)
marked [] m = m
marked (v ∷ b) m = marked b (insert text_dec v true m)

-- The second loop of `difference`.
unfoldable pub unmarked : List (Text × Bool) → List Text → List Text
unmarked m [] = []
unmarked m (v ∷ a) =
    let rest = unmarked m a in elim (lookup text_dec v m) [ none ↦ v ∷ rest | some _ ↦ rest ]

unfoldable pub difference : List Text → List Text → List Text
difference a b = unmarked (marked b []) a

module _ {D Row : Type 0} (db : Database D Row) where
  -- `tx.Rollback` with its error dropped, before the outcome `o` of the transaction. It is the method of
  -- the transaction, not the session's, so it logs nothing.
  unfoldable pub undo : {A : Type 0} → Outcome A → Session D → Session D × Outcome A
  undo o s =
      let (d, r) = db.rollback_tx s.db in
      let s' : Session D = record s { db = d } in
      elim r [
        | panics e ↦ (s', panics e)
        | hangs ↦ (s', hangs)
        | exits e ↦ (s', exits e)
        | _ ↦ (s', o)
      ]

  -- `tx.Commit`
  unfoldable pub save : {A : Type 0} → A → Session D → Session D × Outcome A
  save a s = let (d, r) = db.commit_tx s.db in after (record s { db = d }, r) (λ _. return a)

  -- The deferred function of `Transaction`, after `fs` has returned or panicked. The end of the program
  -- runs no deferred function.
  unfoldable pub finish : {A : Type 0} → Session D × Outcome A → Session D × Outcome A
  finish (s, ok a) = save a s
  finish (s, err e) = undo (err e) s
  finish (s, panics e) = undo (panics e) s
  finish (s, hangs) = (s, hangs)
  finish (s, exits e) = (s, exits e)

  -- `Transaction`, on a new session of the database.
  unfoldable pub transaction : {A : Type 0} → Action D A → D → Session D × Outcome A
  transaction fs d = after (begin db (new_session d)) (λ _ s. finish (fs s))

  -- The loop of `Migrate` over the columns to add; a column without a field is a nil pointer.
  unfoldable pub add_columns : Schema → List Text → Action D (Unit {0})
  add_columns table [] = return tt
  add_columns table (col ∷ cols) = do
    field ← lift (elim (get_field table col) [
      | none ↦ panics (text "nil pointer dereference")
      | some f ↦ ok f
    ])
    _ ← λ s. exec db (
        raw
          (text "ALTER TABLE "
            ++ (table.name
                ++ (text " ADD COLUMN " ++ (field.name ++ (text " " ++ (field.typ ++ text ";"))))))
          [] s)
    add_columns table cols

  -- The statements of `Migrate` that put a table without the deleted columns in place of the old:
  -- all three are written, then run at once.
  unfoldable pub replace_table : Schema → Action D (Unit {0})
  replace_table table s =
      let tmp : Text = text "tmp_" ++ table.name in
      let names : Text = join (text ", ") table.field_names in
      let s1 =
        raw
          (text "CREATE TABLE "
            ++ (tmp
                ++ (text " AS SELECT " ++ (names ++ (text " FROM " ++ (table.name ++ text " ;"))))))
          [] s in
      let s2 = raw (text "DROP TABLE " ++ (table.name ++ text ";")) [] s1 in
      let s3 = raw (text "ALTER TABLE " ++ (tmp ++ (text " RENAME TO " ++ table.name))) [] s2 in
      after (exec db s3) (λ _. return tt)

  -- `columns` is what `rows.Columns` gives for the rows of a query.
  module _ (columns : List Row → List Text) where
    unfoldable pub columns_of : Schema → Action D (List Text)
    columns_of table s =
        after (query db (raw (text "SELECT * FROM " ++ (table.name ++ text " LIMIT 1;")) [] s))
          (λ rows. return (columns rows))

    -- The function that `Migrate` hands to `Transaction`. Without a table, the message that is logged
    -- parses a pointer to an interface, which is no struct, so `NumField` panics.
    unfoldable pub migrate_table : Object → Action D (Unit {0})
    migrate_table dest = do
      _ ← model dest
      there ← has_table db
      _ ← lift (if there then ok tt else panics (text "reflect: NumField of non-struct type"))
      table ← get_ref_table
      old ← columns_of table
      _ ← add_columns table (difference table.field_names old)
      if length (difference old table.field_names) == 0 then return tt else replace_table table

    -- `Migrate`: its named result `err` is never set, so an error is dropped.
    unfoldable pub migrate : Object → D → Session D × Outcome (Unit {0})
    migrate dest d =
        let (s, r) = transaction (migrate_table dest) d in
        elim r [ err _ ↦ (s, ok tt) | o ↦ (s, o) ]
