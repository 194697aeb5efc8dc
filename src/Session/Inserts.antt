-- ===== src/Session/Inserts.antt =====
-- SORM/session/record.go: the statement that `Insert` sends.
use mathlib.Core.List.{append-nil}
use golang_frame_practice.Clause.{
  Arg, Value, value, str, strings, row, insert_into, values, type_dec, verb_s, generate, gen_insert,
  set, vars_at, build_loop, build,
}
use golang_frame_practice.Clause.Placeholders.{Balanced, generate-Balanced}
use golang_frame_practice.Clause.Questions.{IsRows, questions, questions-append, questions-join}
use golang_frame_practice.Common.Assoc.{insert}
use golang_frame_practice.Common.Outcome.{ok}
use golang_frame_practice.Common.Strings.{join}
use golang_frame_practice.Common.{
  ℕ, ◌+◌, ◌≡◌, refl, ap, Bool, some, List, [], ◌∷◌, ◌++◌, map, lookup, length, ℕ_discrete, Text,
  text, arith, All,
}
use golang_frame_practice.Schema.{Schema, Object, record_values}
use golang_frame_practice.Session.Hooks.{Hooks, before_insert, call_method}
use golang_frame_practice.Session.Queries.{model_same}
use golang_frame_practice.Session.Records.{
  set_clause, build_raw, build_exec, insert_rows, insert_records,
}
use golang_frame_practice.Session.Statements.{fresh, executed, statement}
use golang_frame_practice.Session.{Database, Session, raw, clear, exec, get_ref_table}

-- The clause of the table and its columns.
abbrev pub insert_clause : Schema → Text
insert_clause table =
    text "INSERT INTO "
    ++ (table.name ++ (text " (" ++ (join (text ",") table.field_names ++ text ")")))

-- The placeholders of a statement of two clauses are those of the first and as many as there are variables
-- for the second.
questions-statement :
    (clause sql : Text) (vars : List Arg)
    → questions sql ≡ length vars
    → questions (statement (clause ∷ sql ∷ [])) ≡ questions clause + length (vars ++ [])
questions-statement clause sql vars even =
    let all = questions-join (text " ") (clause ∷ sql ∷ []) refl in
    let behind = questions-append (join (text " ") (clause ∷ sql ∷ [])) (text " ") in
    omega (arith, all, behind, even, ap length (append-nil vars))

-- The session once that clause has been set.
abbrev ready : {D : Type 0} → D → Bool → Schema → Session D
ready d tx table = record (fresh d tx (some table)) {
  clause = record {
    sql = (insert_into, insert_clause table) ∷ [];
    sql_vars = (insert_into, []) ∷ [];
  };
}

module _ {D Row : Type 0} (db : Database D Row) (hooks : Hooks D) (format : Arg → Text) where
  -- An object of the table with the values of its row, and no hook that changes it.
  abbrev pub IsPlain : Schema → Object × List Value → Type 0
  IsPlain table (v, r) =
      (v.type_of.id ≡ table.model.id)
      × (record_values table v ≡ ok r)
      × ((s : Session D) → call_method hooks before_insert v s ≡ (s, ok v))

  set_first :
      (d : D) (tx : Bool) (table : Schema)
      → set_clause format insert_into
          (value (str table.name) ∷ strings table.field_names ∷ [])
          (fresh d tx (some table))
        ≡ (ready d tx table, ok tt)
  unfolding set_clause generate gen_insert verb_s set insert type_dec ℕ_discrete
  set_first d tx table = refl

  set_again :
      (d : D) (tx : Bool) (table : Schema)
      → set_clause format insert_into
          (value (str table.name) ∷ strings table.field_names ∷ [])
          (ready d tx table)
        ≡ (ready d tx table, ok tt)
  unfolding set_clause generate gen_insert verb_s set insert type_dec ℕ_discrete
  set_again d tx table = refl

  -- One round of the loop.
  round_plain :
      (table : Schema) (v : Object) (r : List Value) (rest : List Object) (s t u : Session D)
      (rows : List Arg)
      → s.ref_table ≡ some table
      → IsPlain table (v, r)
      → set_clause format insert_into (value (str table.name) ∷ strings table.field_names ∷ []) s
        ≡ (t, ok tt)
      → insert_rows db hooks format rest t ≡ (u, ok rows)
      → insert_rows db hooks format (v ∷ rest) s ≡ (u, ok (row r ∷ rows))
  unfolding insert_rows get_ref_table
  round_plain table v r rest s t u rows e p c q =
      ground (arith, e, p.1, p.2 s, c, q, model_same v s table e p.0)

  rows_plain :
      (d : D) (tx : Bool) (table : Schema) (plain : List (Object × List Value))
      → All (IsPlain table) plain
      → insert_rows db hooks format (map (λ p. p.0) plain) (ready d tx table)
        ≡ (ready d tx table, ok (map (λ p. row p.1) plain))
  rows_plain d tx table [] h = unfold insert_rows in refl
  rows_plain d tx table ((v, r) ∷ plain) h =
      round_plain table v r (map (λ p. p.0) plain) (ready d tx table) (ready d tx table)
        (ready d tx table) (map (λ p. row p.1) plain) refl h.0 (set_again d tx table)
        (rows_plain d tx table plain h.1)

  insert_rows-plain :
      (d : D) (tx : Bool) (table : Schema) (v : Object) (r : List Value)
      (plain : List (Object × List Value))
      → IsPlain table (v, r)
      → All (IsPlain table) plain
      → insert_rows db hooks format (v ∷ map (λ p. p.0) plain) (fresh d tx (some table))
        ≡ (ready d tx table, ok (row r ∷ map (λ p. row p.1) plain))
  insert_rows-plain d tx table v r plain p h =
      round_plain table v r (map (λ p. p.0) plain) (fresh d tx (some table)) (ready d tx table)
        (ready d tx table) (map (λ p. row p.1) plain) refl p (set_first d tx table)
        (rows_plain d tx table plain h)

  -- The session with both clauses set.
  abbrev filled : D → Bool → Schema → Text → List Arg → Session D
  filled d tx table sql vars = record (ready d tx table) {
    clause = record {
      sql = (insert_into, insert_clause table) ∷ (values, sql) ∷ [];
      sql_vars = (insert_into, []) ∷ (values, vars) ∷ [];
    };
  }

  set_values :
      (d : D) (tx : Bool) (table : Schema) (rows : List Arg) (sql : Text) (vars : List Arg)
      → generate format values rows ≡ ok (sql, vars)
      → set_clause format values rows (ready d tx table) ≡ (filled d tx table sql vars, ok tt)
  unfolding set_clause set insert type_dec ℕ_discrete
  set_values d tx table rows sql vars e = ground (arith, e)

  send_filled :
      (d : D) (tx : Bool) (table : Schema) (sql : Text) (vars : List Arg)
      → build_exec db (insert_into ∷ values ∷ []) (filled d tx table sql vars)
        ≡ executed db d tx (some table) (insert_clause table ∷ sql ∷ []) (vars ++ [])
  unfolding build_exec build_raw exec raw clear vars_at build_loop build lookup type_dec ℕ_discrete
  send_filled d tx table sql vars = refl

  -- On a clear session with a table, for objects of its type, one at least, with rows of the same length
  -- and no hook that changes them: `Insert` sends one statement, with the columns of the table and the
  -- rows, and leaves the session clear. Not counting those that stand in the clause with the
  -- names of the table and its columns, the statement has as many placeholders as it has variables.
  pub insert_records-plain :
      (d : D) (tx : Bool) (table : Schema) (v : Object) (r : List Value)
      (plain : List (Object × List Value)) (n : ℕ)
      → IsPlain table (v, r)
      → All (IsPlain table) plain
      → IsRows n (row r ∷ map (λ p. row p.1) plain)
      → (sql : Text) × (vars : List Arg) × (generate format values
            (row r ∷ map (λ p. row p.1) plain)
          ≡ ok (sql, vars))
        × (questions (statement (insert_clause table ∷ sql ∷ []))
            ≡ questions (insert_clause table) + length (vars ++ []))
        × (insert_records db hooks format (v ∷ map (λ p. p.0) plain) (fresh d tx (some table))
            ≡ executed db d tx (some table) (insert_clause table ∷ sql ∷ []) (vars ++ []))
  unfolding insert_records
  insert_records-plain d tx table v r plain n p h e =
      let rows : List Arg = row r ∷ map (λ p. row p.1) plain in
      let g : Balanced (generate format values rows) =
        generate-Balanced format values rows (n, e) in
      let (sql, vars) = g.result in
      (
        sql,
        vars,
        g.runs,
        questions-statement (insert_clause table) sql vars g.even,
        ground (
          arith,
          insert_rows-plain d tx table v r plain p h,
          set_values d tx table rows sql vars g.runs,
          send_filled d tx table sql vars,
        ),
      )
