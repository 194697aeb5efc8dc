-- ===== src/Clause/Tests.antt =====
-- Tests of the SQL clauses on small inputs, and their theorems at them.
use golang_frame_practice.Common.Assoc.{insert}
use golang_frame_practice.Common.Outcome.{ok}
use golang_frame_practice.Common.Strings.{join, itoa}
use golang_frame_practice.Common.{◌≡◌, ◌≢◌, refl, List, [], ◌∷◌, lookup, length, Text, text, arith}
use golang_frame_practice.Clause.{
  str, num, Arg, value, strings, row, select, limit, where_, values, type_dec, marks, gen_bind_vars,
  comma, verb_s, verb_d, gen_select, gen_where, gen_limit, gen_values, values_loop, generate,
  Clause, empty_clause, set, vars_at, build_loop, build,
}
use golang_frame_practice.Clause.Build.{IsBalanced, build-IsBalanced}
use golang_frame_practice.Clause.Questions.{questions}

program : Unit {0}
unfolding type_dec marks gen_bind_vars comma verb_s verb_d gen_select gen_where gen_limit gen_values
    values_loop generate set vars_at build_loop build join itoa insert lookup
program = tt

abbrev no_format : Arg → Text
no_format a = []

abbrev condition : List Arg
condition = value (str (text "Name = ?")) ∷ value (str (text "Tom")) ∷ []

abbrev one : List Arg
one = value (num 1) ∷ []

abbrev users : List Arg
users = value (str (text "User")) ∷ strings (text "age" ∷ text "name" ∷ []) ∷ []

-- As in generator_test.go.
select_users : generate no_format select users ≡ ok (text "SELECT age,name FROM User", [])
unfolding program
select_users = refl

abbrev rows : List Arg
rows = row (str (text "Tom") ∷ num 12 ∷ []) ∷ row (str (text "Bob") ∷ num 15 ∷ []) ∷ []

two_rows :
    generate no_format values rows
    ≡ ok (
      text "VALUES(?, ?), (?, ?)",
      value (str (text "Tom")) ∷ value (num 12) ∷ value (str (text "Bob")) ∷ value (num 15) ∷ [],
    )
unfolding program
two_rows = refl

abbrev found : Clause
found = record {
  sql = (where_, text "WHERE Name = ?") ∷ (limit, text "LIMIT 1") ∷ [];
  sql_vars = (where_, value (str (text "Tom")) ∷ []) ∷ (limit, []) ∷ [];
}

found-IsBalanced : IsBalanced found
unfolding lookup vars_at
found-IsBalanced typ sql e = ground arith

build-IsBalanced_example :
    (questions (build found (where_ ∷ limit ∷ [])).1.0
      ≡ length (build found (where_ ∷ limit ∷ [])).1.1)
    × ((build found (where_ ∷ limit ∷ [])).0 ≡ empty_clause)
build-IsBalanced_example = build-IsBalanced found (where_ ∷ limit ∷ []) found-IsBalanced

built :
    (build found (where_ ∷ limit ∷ [])).1
    ≡ (text "WHERE Name = ? LIMIT 1", value (str (text "Tom")) ∷ [])
unfolding program
built = refl

where_ne_limit : where_ ≢ limit
where_ne_limit = ground arith
