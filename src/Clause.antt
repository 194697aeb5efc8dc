-- ===== src/Clause.antt =====
-- SORM/clause/clause.go and generator.go: SQL clauses and the statement that they make.
pub mod Questions
pub mod Placeholders
pub mod Build
mod Tests
use golang_frame_practice.Common.Assoc.{insert}
use golang_frame_practice.Common.Outcome.{Outcome, ok, err, panics, hangs, ◌>>=◌}
use golang_frame_practice.Common.Strings.{join, itoa}
use golang_frame_practice.Common.{
  ℕ, zero, suc, ◌+◌, ◌==◌, Bool, true, false, Option, none, some, List, [], ◌∷◌, ◌++◌, map, lookup,
  length, if◌then◌else◌, Text, text, ℕ_discrete,
}

-- A value that is bound to a placeholder. `opaque` is any further value, by a number for it.
pub data Value : Type 0 where
  str : Text → Value
  num : ℕ → Value
  opaque : ℕ → Value

-- What a generator is handed as an `interface{}`: a value, a `[]string`, a `[]interface{}`, or a
-- `map[string]interface{}` in the order in which `range` visits it.
pub data Arg : Type 0 where
  value : Value → Arg
  strings : List Text → Arg
  row : List Value → Arg
  fields : List (Text × Value) → Arg

-- The type `Type`; `unknown` is any further integer.
pub data ClauseType : Type 0 where
  insert_into values select limit where_ order_by update delete count : ClauseType
  unknown : ℕ → ClauseType

unfoldable pub type_dec : Discrete ClauseType
unfolding ℕ_discrete
type_dec = hlevel ℕ_discrete

abbrev pub Generated : Type 0
Generated = Outcome (Text × List Arg)

-- `values[i]` and the type assertions panic.
abbrev pub bad_index : {A : Type 0} → Outcome A
bad_index = panics (text "index out of range")

abbrev pub bad_type : {A : Type 0} → Outcome A
bad_type = panics (text "interface conversion")

abbrev pub as_strings : Arg → Outcome (List Text)
as_strings (strings l) = ok l
as_strings _ = bad_type

abbrev pub as_row : Arg → Outcome (List Value)
as_row (row l) = ok l
as_row _ = bad_type

abbrev pub as_fields : Arg → Outcome (List (Text × Value))
as_fields (fields l) = ok l
as_fields _ = bad_type

-- The `?` of `genBindVars`, one for each round of its loop.
unfoldable pub marks : ℕ → List Text
marks zero = []
marks (suc n) = text "?" ∷ marks n

-- `genBindVars`
unfoldable pub gen_bind_vars : ℕ → Text
gen_bind_vars n = join (text ", ") (marks n)

-- `if i+1 != len(values)`: a comma before any further row.
unfoldable pub comma : List Arg → Text
comma [] = []
comma (_ ∷ _) = text ", "

-- The loop of `_update`: `k = ?` and the variable of each entry.
unfoldable pub update_items : List (Text × Value) → List Text × List Arg
update_items [] = ([], [])
update_items ((k, v) ∷ items) =
    let (keys, vars) = update_items items in ((k ++ text " = ?") ∷ keys, value v ∷ vars)

-- `fmt` prints a string as it is; `format` is what it prints of another argument, with `%s` or `%v`
-- and with `%d`.
module _ (format : Arg → Text) where
  unfoldable pub verb_s : Arg → Text
  verb_s (value (str s)) = s
  verb_s a = format a

  unfoldable pub verb_d : Arg → Text
  verb_d (value (num n)) = itoa n
  verb_d a = format a

  -- `_select`
  unfoldable pub gen_select : List Arg → Generated
  gen_select [] = bad_index
  gen_select (_ ∷ []) = bad_index
  gen_select (table ∷ names ∷ _) = do
    l ← as_strings names
    ok (text "SELECT " ++ (join (text ",") l ++ (text " FROM " ++ verb_s table)), [])

  -- `_insert`
  unfoldable pub gen_insert : List Arg → Generated
  gen_insert [] = bad_index
  gen_insert (_ ∷ []) = bad_index
  gen_insert (table ∷ names ∷ _) = do
    l ← as_strings names
    ok (text "INSERT INTO " ++ (verb_s table ++ (text " (" ++ (join (text ",") l ++ text ")"))), [])

  -- `_limit`
  unfoldable pub gen_limit : List Arg → Generated
  gen_limit [] = bad_index
  gen_limit (n ∷ _) = ok (text "LIMIT " ++ verb_d n, [])

  -- `_orderBy`
  unfoldable pub gen_order_by : List Arg → Generated
  gen_order_by [] = bad_index
  gen_order_by (desc ∷ _) = ok (text "ORDER BY " ++ verb_s desc, [])

  -- `_where`
  unfoldable pub gen_where : List Arg → Generated
  gen_where [] = bad_index
  gen_where (desc ∷ vars) = ok (text "WHERE " ++ verb_s desc, vars)

  -- `_update`
  unfoldable pub gen_update : List Arg → Generated
  gen_update [] = bad_index
  gen_update (_ ∷ []) = bad_index
  gen_update (table ∷ m ∷ _) = do
    items ← as_fields m
    let parts = update_items items
    ok (text "UPDATE " ++ (verb_s table ++ (text " SET " ++ join (text ", ") parts.0)), parts.1)

  -- `_delete`
  unfoldable pub gen_delete : List Arg → Generated
  gen_delete [] = bad_index
  gen_delete (table ∷ _) = ok (text "DELETE FROM " ++ verb_s table, [])

  -- `_count`
  unfoldable pub gen_count : List Arg → Generated
  gen_count [] = bad_index
  gen_count (table ∷ _) = gen_select (table ∷ strings (text "COUNT(*)" ∷ []) ∷ [])

  -- The loop of `_values`, with what `bindStr`, the builder and `vars` hold.
  unfoldable pub values_loop : List Arg → Text → Text → List Arg → Generated
  values_loop [] bind_str sql vars = ok (sql, vars)
  values_loop (a ∷ rest) bind_str sql vars = elim a [
    | row v ↦
        let bind_str' : Text = elim bind_str [ [] ↦ gen_bind_vars (length v) | c ∷ s ↦ c ∷ s ] in
        values_loop rest bind_str' (sql ++ (text "(" ++ (bind_str' ++ (text ")" ++ comma rest))))
          (vars ++ map value v)
    | _ ↦ bad_type
  ]

  -- `_values`
  unfoldable pub gen_values : List Arg → Generated
  gen_values rows = values_loop rows [] (text "VALUES") []

  -- The map `generators`; a call of a missing one panics.
  unfoldable pub generate : ClauseType → List Arg → Generated
  generate insert_into = gen_insert
  generate values = gen_values
  generate select = gen_select
  generate where_ = gen_where
  generate limit = gen_limit
  generate order_by = gen_order_by
  generate update = gen_update
  generate delete = gen_delete
  generate count = gen_count
  generate (unknown _) = λ _. panics (text "nil function")

-- The struct `Clause`: both maps are written together. A nil map reads like an empty one.
pub record Clause : Type 0 where
  pub sql : List (ClauseType × Text)
  pub sql_vars : List (ClauseType × List Arg)

abbrev pub empty_clause : Clause
empty_clause = record { sql = []; sql_vars = [] }

-- `Set`
unfoldable pub set : (Arg → Text) → Clause → ClauseType → List Arg → Outcome Clause
set format c typ args = do
  (sql, vars) ← generate format typ args
  ok (record {
    sql = insert type_dec typ sql c.sql;
    sql_vars = insert type_dec typ vars c.sql_vars;
  })

-- `c.sqlVars[typ]`
unfoldable pub vars_at : ClauseType → Clause → List Arg
vars_at typ c = elim (lookup type_dec typ c.sql_vars) [ none ↦ [] | some vars ↦ vars ]

-- The loop of `Build`.
unfoldable pub build_loop : Clause → List ClauseType → List Text × List Arg
build_loop c [] = ([], [])
build_loop c (typ ∷ types) =
    let (sqls, vars) = build_loop c types in
    elim (lookup type_dec typ c.sql) [
      | none ↦ (sqls, vars)
      | some sql ↦ (sql ∷ sqls, vars_at typ c ++ vars)
    ]

-- `Build`: the statement with its variables, and the cleared clause.
unfoldable pub build : Clause → List ClauseType → Clause × (Text × List Arg)
build c types =
    let (sqls, vars) = build_loop c types in (empty_clause, (join (text " ") sqls, vars))
