-- ===== src/Session/Statements.antt =====
-- SORM/session/record.go: the statements that the database is sent, from a clear session.
use golang_frame_practice.Clause.{
  Arg, Value, value, str, empty_clause, type_dec, verb_s, generate, gen_where, gen_delete,
  gen_update, update_items, set, vars_at, build_loop, build,
}
use golang_frame_practice.Common.Assoc.{insert}
use golang_frame_practice.Common.Outcome.{Outcome}
use golang_frame_practice.Common.Strings.{join}
use golang_frame_practice.Common.{
  ℕ, ◌≡◌, refl, Bool, Option, some, List, [], ◌∷◌, ◌++◌, lookup, ℕ_discrete, Text, text,
}
use golang_frame_practice.Logger.{fatal}
use golang_frame_practice.Schema.{Schema}
use golang_frame_practice.Session.Records.{
  by_map, changed, set_clause, build_raw, set_where, build_exec, update_records, delete_records,
}
use golang_frame_practice.Session.Hooks.{Hooks}
use golang_frame_practice.Session.{
  Database, Session, after, ◌>>=◌, lift, raw, clear, exec, table_of,
}

-- Nothing of a statement is left in the session.
pub record IsClear {D : Type 0} (s : Session D) : Type 0 where
  pub clause : s.clause ≡ empty_clause
  pub sql : s.sql ≡ []
  pub sql_vars : s.sql_vars ≡ []

-- The clear session with a database and what else it keeps.
abbrev pub fresh : {D : Type 0} → D → Bool → Option Schema → Session D
fresh d tx table = record {
  db = d;
  tx = tx;
  ref_table = table;
  clause = empty_clause;
  sql = [];
  sql_vars = [];
}

-- The text of a statement with these clauses.
abbrev pub statement : List Text → Text
statement clauses = join (text " ") clauses ++ text " "

-- What `Exec` with `RowsAffected` makes of a statement: the database runs it once, and the session is clear.
abbrev pub executed :
    {D Row : Type 0}
    → Database D Row
    → D
    → Bool
    → Option Schema
    → List Text
    → List Arg
    → Session D × Outcome ℕ
executed db d tx table clauses vars =
    let (d', r) = db.exec tx (statement clauses) vars d in
    after (fresh d' tx table, fatal [] r) (λ affected. lift affected)

module _ {D Row : Type 0} (db : Database D Row) (hooks : Hooks D) (format : Arg → Text) where
  -- On a clear session, `Where` and then `Delete` of a table send one statement, which has the
  -- variables of the condition, and leave the session clear.
  pub delete-where :
      (d : D) (tx : Bool) (table : Option Schema) (name desc : Text) (vars : List Arg)
      → (set_where format desc vars >>= λ _. delete_records db hooks format (value (str name) ∷ []))
          (fresh d tx table)
        ≡ executed db d tx table
            ((text "DELETE FROM " ++ name) ∷ (text "WHERE " ++ desc) ∷ [])
            (vars ++ [])
  unfolding set_where delete_records set_clause build_raw build_exec exec raw clear generate
      gen_where gen_delete verb_s set vars_at build_loop build insert lookup type_dec ℕ_discrete
  delete-where d tx table name desc vars = refl

  -- On a clear session with a table, `Where` and then `Update` with a map send one statement, which has
  -- the new values first and then the variables of the condition, and leave the session clear.
  pub update-where :
      (d : D) (tx : Bool) (table : Schema) (desc : Text) (vars : List Arg) (m : List (Text × Value))
      → (set_where format desc vars >>= λ _. update_records db hooks format (by_map m))
          (fresh d tx (some table))
        ≡ executed db d tx
            (some table)
            ((text "UPDATE "
                ++ (table.name ++ (text " SET " ++ join (text ", ") (update_items m).0)))
              ∷ (text "WHERE " ++ desc)
              ∷ [])
            ((update_items m).1 ++ (vars ++ []))
  unfolding set_where update_records changed set_clause build_raw build_exec exec raw clear table_of
      generate gen_where gen_update verb_s set vars_at build_loop build insert lookup type_dec
      ℕ_discrete
  update-where d tx table desc vars m = refl
