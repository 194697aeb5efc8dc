-- ===== src/Session.antt =====
-- SORM/session: a session builds a statement, has the database run it, and is clear again. The
-- database and the hooks of the models are parameters.
pub mod Hooks
pub mod Tables
pub mod Records
pub mod Statements
pub mod Queries
pub mod Inserts
mod Tests
use golang_frame_practice.Clause.{Clause, empty_clause, Arg}
use golang_frame_practice.Common.Outcome.{Outcome, ok, err, panics, hangs, exits}
use golang_frame_practice.Common.{
  ℕ, Bool, true, false, Option, none, some, List, [], ◌∷◌, ◌++◌, if◌then◌else◌, Text, text,
}
use golang_frame_practice.Logger.{fatal}
use golang_frame_practice.Schema.{Schema, Object}

-- What a session asks of `database/sql`, with the state `D` of the database, for a connection from
-- the pool or, if the flag is set, for the transaction. `exec` gives what `RowsAffected` gives;
-- `query` gives the rows, and `query_row` one row, which `scan_int` and `scan_text` read.
pub record Database (D Row : Type 0) : Type 0 where
  pub exec : Bool → Text → List Arg → D → D × Outcome (Outcome ℕ)
  pub query : Bool → Text → List Arg → D → D × Outcome (List Row)
  pub query_row : Bool → Text → List Arg → D → D × Row
  pub scan : Row → Object → Outcome Object
  pub scan_int : Row → Outcome ℕ
  pub scan_text : Row → Outcome Text
  pub close : D → D × Outcome (Unit {0})
  pub begin_tx : D → D × Outcome (Unit {0})
  pub commit_tx : D → D × Outcome (Unit {0})
  pub rollback_tx : D → D × Outcome (Unit {0})

-- The struct `Session`, with the state of its database. `tx` says that the transaction is not nil.
pub record Session (D : Type 0) : Type 0 where
  pub db : D
  pub tx : Bool
  pub ref_table : Option Schema
  pub clause : Clause
  pub sql : Text
  pub sql_vars : List Arg

-- `New`
unfoldable pub new_session : {D : Type 0} → D → Session D
new_session db = record {
  db = db;
  tx = false;
  ref_table = none;
  clause = empty_clause;
  sql = [];
  sql_vars = [];
}

-- A method of a session.
abbrev pub Action : Type 0 → Type 0 → Type 0
Action D A = Session D → Session D × Outcome A

abbrev pub after :
    {D A B : Type 0} → Session D × Outcome A → (A → Action D B) → Session D × Outcome B
after (s, ok a) f = f a s
after (s, err e) f = (s, err e)
after (s, panics e) f = (s, panics e)
after (s, hangs) f = (s, hangs)
after (s, exits msg) f = (s, exits msg)

infixl 5 ◌>>=◌
abbrev pub ◌>>=◌ : {D A B : Type 0} → Action D A → (A → Action D B) → Action D B
(m >>= f) s = after (m s) f

abbrev pub return : {D A : Type 0} → A → Action D A
return a s = (s, ok a)

-- A result that does not depend on the session.
abbrev pub lift : {D A : Type 0} → Outcome A → Action D A
lift o s = (s, o)

module _ {D : Type 0} where
  -- `Raw`
  unfoldable pub raw : Text → List Arg → Session D → Session D
  raw sql vars s = record s { sql = s.sql ++ (sql ++ text " "); sql_vars = s.sql_vars ++ vars }

  -- `Clear`
  unfoldable pub clear : Session D → Session D
  clear s = record s { sql = []; sql_vars = []; clause = empty_clause }

  -- `GetRefTable`: without a table, `logger.Error` ends the program.
  unfoldable pub get_ref_table : Action D Schema
  get_ref_table s = elim s.ref_table [
    | none ↦ (s, exits (text "Invalid refTable"))
    | some table ↦ (s, ok table)
  ]

  -- `s.refTable` where a field of it is read at once: a nil pointer panics.
  unfoldable pub table_of : Action D Schema
  table_of s = elim s.ref_table [
    | none ↦ (s, panics (text "nil pointer dereference"))
    | some table ↦ (s, ok table)
  ]

module _ {D Row : Type 0} (db : Database D Row) where
  -- `Exec`, with the deferred `Clear`. An error is logged with `logger.Error`, which ends the program: the
  -- session is gone then, and it does not matter that it is given clear.
  unfoldable pub exec : Action D (Outcome ℕ)
  exec s =
      let (d, r) = db.exec s.tx s.sql s.sql_vars s.db in (clear (record s { db = d }), fatal [] r)

  -- `Query`
  unfoldable pub query : Action D (List Row)
  query s =
      let (d, r) = db.query s.tx s.sql s.sql_vars s.db in (clear (record s { db = d }), fatal [] r)

  -- `QueryRow`
  unfoldable pub query_row : Action D Row
  query_row s =
      let (d, r) = db.query_row s.tx s.sql s.sql_vars s.db in (clear (record s { db = d }), ok r)

  -- `Begin`
  unfoldable pub begin : Action D (Unit {0})
  begin s =
      let (d, r) = db.begin_tx s.db in
      elim r [
        | ok _ ↦ (record s { db = d; tx = true }, ok tt)
        | err e ↦
            (record s { db = d; tx = false }, exits (text "Start transaction failed: %v" ++ e))
        | panics e ↦ (record s { db = d }, panics e)
        | hangs ↦ (record s { db = d }, hangs)
        | exits e ↦ (record s { db = d }, exits e)
      ]

  -- `Commit`: without a transaction it is a call on nil.
  unfoldable pub commit : Action D (Unit {0})
  commit s =
      let (d, r) = db.commit_tx s.db in
      if s.tx
      then (record s { db = d }, fatal (text "Commit failed: %v") r)
      else (s, panics (text "nil pointer dereference"))

  -- `Rollback`
  unfoldable pub rollback : Action D (Unit {0})
  rollback s =
      let (d, r) = db.rollback_tx s.db in
      if s.tx
      then (record s { db = d }, fatal (text "Rollback failed: %v") r)
      else (s, panics (text "nil pointer dereference"))
