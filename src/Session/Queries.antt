-- ===== src/Session/Queries.antt =====
-- SORM/session/record.go: the query that `Find` sends, whatever the order of the chain before it.
use golang_frame_practice.Clause.{
  Arg, value, str, strings, select, where_, order_by, limit, type_dec, verb_s, verb_d, generate,
  gen_where, gen_limit, gen_order_by, gen_select, set, vars_at, build_loop, build,
}
use golang_frame_practice.Common.Assoc.{insert}
use golang_frame_practice.Common.Outcome.{Outcome, ok}
use golang_frame_practice.Common.Strings.{join, itoa}
use golang_frame_practice.Common.{
  ℕ, ◌≡◌, refl, ap, Bool, some, List, [], ◌∷◌, ◌++◌, lookup, ℕ_discrete, Text, text, arith,
}
use golang_frame_practice.Logger.{fatal}
use golang_frame_practice.Schema.{Schema, Object}
use golang_frame_practice.Session.Hooks.{Hooks}
use golang_frame_practice.Session.Records.{
  set_clause, build_raw, set_where, set_limit, set_order_by, scan_rows, close_rows, find,
}
use golang_frame_practice.Session.Statements.{fresh, statement}
use golang_frame_practice.Session.Tables.{model}
use golang_frame_practice.Session.{
  Database, Session, Action, after, ◌>>=◌, return, raw, clear, query, get_ref_table,
}

pub model_same :
    {D : Type 0} (dest : Object) (s : Session D) (table : Schema)
    → s.ref_table ≡ some table
    → dest.type_of.id ≡ table.model.id
    → model dest s ≡ (s, ok tt)
unfolding model
model_same dest s table e same = ground (arith, e, same)

module _ {D Row : Type 0} (db : Database D Row) (hooks : Hooks D) (format : Arg → Text) where
  -- `Where`, `OrderBy` and `Limit` in a chain, and in the other order.
  abbrev pub chained : Text → Text → ℕ → List Arg → Action D (Unit {0})
  chained desc by n vars =
      set_where format desc vars >>= λ _. set_order_by format by >>= λ _. set_limit format n

  abbrev pub reversed : Text → Text → ℕ → List Arg → Action D (Unit {0})
  reversed desc by n vars =
      set_limit format n >>= λ _. set_order_by format by >>= λ _. set_where format desc vars

  -- What `Find` does with the rows of its query.
  abbrev pub collect : Object → List Row → Action D (List Object)
  collect dest rows =
      scan_rows db hooks format dest rows >>= λ found. close_rows db >>= λ _. return found

  -- `Find` behind `Model`.
  abbrev send_select : Object → Action D (List Object)
  send_select dest = get_ref_table >>= (λ table.
      set_clause format select (value (str table.name) ∷ strings table.field_names ∷ []) >>= λ _.
      (λ s. query db (build_raw (select ∷ where_ ∷ order_by ∷ limit ∷ []) s)) >>= λ rows.
      collect dest rows)

  -- The one query, and then its rows.
  abbrev pub queried :
      D → Bool → Schema → Object → Text → Text → ℕ → List Arg → Session D × Outcome (List Object)
  queried d tx table dest desc by n vars =
      let (d', r) =
        db.query tx
          (statement (
            (text "SELECT " ++ (join (text ",") table.field_names ++ (text " FROM " ++ table.name)))
            ∷ (text "WHERE " ++ desc)
            ∷ (text "ORDER BY " ++ by)
            ∷ (text "LIMIT " ++ itoa n)
            ∷ []))
          (vars ++ []) d in
      after (fresh d' tx (some table), fatal [] r) (collect dest)

  find-sent :
      (dest : Object) (s : Session D) (table : Schema)
      → s.ref_table ≡ some table
      → dest.type_of.id ≡ table.model.id
      → find db hooks format dest s ≡ send_select dest s
  unfolding find
  find-sent dest s table e same =
      ap (λ r. after r (λ _. send_select dest)) (model_same dest s table e same)

  -- On a clear session with a table of the object's type, `Where`, `OrderBy` and `Limit` in this or the
  -- other order and then `Find` send the same query, with its clauses in the order of SQL, and then
  -- collect its rows from a clear session.
  pub find-chained :
      (d : D) (tx : Bool) (table : Schema) (dest : Object) (desc by : Text) (n : ℕ)
      (vars : List Arg)
      → dest.type_of.id ≡ table.model.id
      → ((chained desc by n vars >>= λ _. find db hooks format dest) (fresh d tx (some table))
          ≡ queried d tx table dest desc by n vars)
        × ((reversed desc by n vars >>= λ _. find db hooks format dest) (fresh d tx (some table))
            ≡ queried d tx table dest desc by n vars)
  unfolding set_where set_order_by set_limit set_clause build_raw query raw clear get_ref_table
      generate gen_where gen_order_by gen_limit gen_select verb_s verb_d set vars_at build_loop
      build insert lookup type_dec ℕ_discrete
  find-chained d tx table dest desc by n vars same =
      (find-sent dest _ table refl same, find-sent dest _ table refl same)
