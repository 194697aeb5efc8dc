-- ===== src/Session/Records.antt =====
-- SORM/session/record.go: the statements of a session. Calls of
-- `CallMethod` on nil are left out: they do nothing.
use golang_frame_practice.Clause.{
  ClauseType, Arg, Value, str, num, value, strings, row, fields, insert_into, values, select,
  where_, limit, order_by, update, delete, count, build, set,
}
use golang_frame_practice.Common.Assoc.{insert}
use golang_frame_practice.Common.Outcome.{Outcome, ok, err, panics}
use golang_frame_practice.Common.{ℕ, List, [], ◌∷◌, Text, text, text_dec}
use golang_frame_practice.Schema.{Object, record_values}
use golang_frame_practice.Session.Hooks.{Hooks, before_insert, after_query, call_method}
use golang_frame_practice.Session.Tables.{model}
use golang_frame_practice.Session.{
  Database, Session, Action, after, ◌>>=◌, return, lift, raw, get_ref_table, table_of, exec, query,
  query_row,
}

-- The arguments of `Update`: a map, or keys and values in turn.
pub data Changes : Type 0 where
  by_map : List (Text × Value) → Changes
  by_list : List Value → Changes

-- The loop of `Update` over keys and values.
unfoldable pub pair_up : List Value → List (Text × Value) → Outcome (List (Text × Value))
pair_up [] m = ok m
pair_up (str k ∷ []) m = panics (text "index out of range")
pair_up (str k ∷ v ∷ kvs) m = pair_up kvs (insert text_dec k v m)
pair_up (_ ∷ _) m = panics (text "interface conversion")

-- The head of `Update`; `kvs[0]` of nothing panics.
unfoldable pub changed : Changes → Outcome (List (Text × Value))
changed (by_map m) = ok m
changed (by_list []) = panics (text "index out of range")
changed (by_list (v ∷ kvs)) = pair_up (v ∷ kvs) []

module _ {D : Type 0} where
  -- `s.clause.Set` and `s.clause.Build` with `s.Raw`.
  unfoldable pub set_clause : (Arg → Text) → ClauseType → List Arg → Action D (Unit {0})
  set_clause format typ args s =
      after (s, set format s.clause typ args) (λ c s'. (record s' { clause = c }, ok tt))

  unfoldable pub build_raw : List ClauseType → Session D → Session D
  build_raw types s =
      let (c, (sql, vars)) = build s.clause types in raw sql vars (record s { clause = c })

-- The end of `First`
unfoldable pub first_of : {D : Type 0} → List Object → Action D Object
first_of [] = lift (err (text "Record Not Found"))
first_of (v ∷ _) = return v

module _ {D : Type 0} (format : Arg → Text) where
  -- `Limit`, of a number that is not negative.
  unfoldable pub set_limit : ℕ → Action D (Unit {0})
  set_limit n = set_clause format limit (value (num n) ∷ [])

  -- `Where`
  unfoldable pub set_where : Text → List Arg → Action D (Unit {0})
  set_where desc vars = set_clause format where_ (value (str desc) ∷ vars)

  -- `OrderBy`
  unfoldable pub set_order_by : Text → Action D (Unit {0})
  set_order_by desc = set_clause format order_by (value (str desc) ∷ [])

module _ {D Row : Type 0} (db : Database D Row) where
  -- The end of `Insert`, `Update` and `Delete`: the rows that the statement affected.
  unfoldable pub build_exec : List ClauseType → Action D ℕ
  build_exec types s = after (exec db (build_raw types s)) (λ affected. lift affected)

  -- `rows.Close`
  unfoldable pub close_rows : Action D (Unit {0})
  close_rows s = let (d, r) = db.close s.db in (record s { db = d }, r)

-- `format` is what `fmt` prints of an argument that is not a string or number.
module _ {D Row : Type 0} (db : Database D Row) (hooks : Hooks D) (format : Arg → Text) where
  -- The loop of `Insert`, which returns `recordValues`.
  unfoldable pub insert_rows : List Object → Action D (List Arg)
  insert_rows [] = return []
  insert_rows (v ∷ rest) = do
    v' ← call_method hooks before_insert v
    _ ← model v'
    table ← get_ref_table
    _ ← set_clause format insert_into (value (str table.name) ∷ strings table.field_names ∷ [])
    r ← lift (record_values table v')
    rows ← insert_rows rest
    return (row r ∷ rows)

  -- `Insert`
  unfoldable pub insert_records : List Object → Action D ℕ
  insert_records objects = do
    rows ← insert_rows objects
    _ ← set_clause format values rows
    build_exec db (insert_into ∷ values ∷ [])

  -- The loop of `Find`; `scan` reads a row into a zero object.
  unfoldable pub scan_rows : Object → List Row → Action D (List Object)
  scan_rows zero_value [] = return []
  scan_rows zero_value (r ∷ rows) = do
    dest ← lift (db.scan r zero_value)
    dest' ← call_method hooks after_query dest
    rest ← scan_rows zero_value rows
    return (dest' ∷ rest)

  -- `Find` of objects with the type of `zero_value`. What it returns is what Go appends to the caller's
  -- slice, row by row; the rows of a query are given at once. On an error it returns without what it found,
  -- where Go leaves the rows before the error in the slice.
  unfoldable pub find : Object → Action D (List Object)
  find zero_value = do
    _ ← model zero_value
    table ← get_ref_table
    _ ← set_clause format select (value (str table.name) ∷ strings table.field_names ∷ [])
    rows ← λ s. query db (build_raw (select ∷ where_ ∷ order_by ∷ limit ∷ []) s)
    found ← scan_rows zero_value rows
    _ ← close_rows db
    return found

  -- `Update`
  unfoldable pub update_records : Changes → Action D ℕ
  update_records kvs = do
    m ← lift (changed kvs)
    table ← table_of
    _ ← set_clause format update (value (str table.name) ∷ fields m ∷ [])
    build_exec db (update ∷ where_ ∷ [])

  -- `Delete`; `values[0]` of nothing panics.
  unfoldable pub delete_records : List Arg → Action D ℕ
  delete_records [] = lift (panics (text "index out of range"))
  delete_records (table ∷ _) = do
    _ ← set_clause format delete (table ∷ [])
    build_exec db (delete ∷ where_ ∷ [])

  -- `Count`
  unfoldable pub count_records : Action D ℕ
  count_records = do
    table ← table_of
    _ ← set_clause format count (value (str table.name) ∷ [])
    r ← λ s. query_row db (build_raw (count ∷ where_ ∷ []) s)
    lift (db.scan_int r)

  -- `First`
  unfoldable pub first : Object → Action D Object
  first zero_value = do _ ← set_limit format 1; found ← find zero_value; first_of found
