-- ===== src/Session/Tests.antt =====
-- SORM/session: a database that keeps the statements it is sent.
use golang_frame_practice.Clause.{Arg, Value, str, value}
use golang_frame_practice.Common.Outcome.{ok}
use golang_frame_practice.Common.{ℕ, ◌+◌, ◌≡◌, false, none, some, List, [], ◌∷◌, ◌++◌, Text, text}
use golang_frame_practice.Schema.{Schema, Object}
use golang_frame_practice.Session.{Database, ◌>>=◌}
use golang_frame_practice.Session.Hooks.{Hooks, call_hook, call_method}
use golang_frame_practice.Session.Inserts.{IsPlain, insert_clause, insert_records-plain}
use golang_frame_practice.Clause.{row, values, generate}
use golang_frame_practice.Clause.Questions.{questions}
use golang_frame_practice.Session.Records.{insert_records}
use golang_frame_practice.Session.Statements.{statement, executed}
use golang_frame_practice.Schema.{record_values, read_values}
use golang_frame_practice.Common.{length, lookup, text_dec, ℕ_discrete}
use golang_frame_practice.Session.Records.{find}
use golang_frame_practice.Session.Queries.{chained, reversed, queried, find-chained}
use golang_frame_practice.Common.{refl}
use golang_frame_practice.Session.Statements.{statement, fresh}

abbrev Log : Type 0
Log = List (Text × List Arg)

abbrev log : Database Log ℕ
log = record {
  exec = λ tx sql vars d. (d ++ (sql, vars) ∷ [], ok (ok 1));
  query = λ tx sql vars d. (d ++ (sql, vars) ∷ [], ok []);
  query_row = λ tx sql vars d. (d ++ (sql, vars) ∷ [], 0);
  scan = λ r dest. ok dest;
  scan_int = λ r. ok r;
  scan_text = λ r. ok [];
  close = λ d. (d, ok tt);
  begin_tx = λ d. (d, ok tt);
  commit_tx = λ d. (d, ok tt);
  rollback_tx = λ d. (d, ok tt);
}

abbrev no_hooks : Hooks Log
no_hooks = λ h v. none

abbrev no_format : Arg → Text
no_format a = []

abbrev tom : List Arg
tom = value (str (text "Tom")) ∷ []

abbrev users : Schema
users = record {
  model = record { id = 0; name = text "User"; table_name = none; struct_fields = [] };
  name = text "User";
  fields = [];
  field_names = [];
  field_map = [];
}

abbrev empty_user : Object
empty_user = record { type_of = users.model; values = [] }

find-chained_example :
    ((chained log no_hooks no_format (text "Name = ?") (text "Age") 1 tom >>= λ _.
    find log no_hooks no_format empty_user)
        (fresh [] false (some users))
      ≡ queried log no_hooks no_format [] false users empty_user
          (text "Name = ?")
          (text "Age")
          1
          tom)
    × ((reversed log no_hooks no_format (text "Name = ?") (text "Age") 1 tom >>= λ _.
            find log no_hooks no_format empty_user)
          (fresh [] false (some users))
        ≡ queried log no_hooks no_format [] false users empty_user
            (text "Name = ?")
            (text "Age")
            1
            tom)
find-chained_example =
    find-chained log no_hooks no_format [] false users empty_user (text "Name = ?") (text "Age") 1
      tom refl

-- A table of one column, and two of its objects.
abbrev people : Schema
people = record {
  model = users.model;
  name = text "User";
  fields = record { name = text "Name"; typ = text "text"; tag = [] } ∷ [];
  field_names = text "Name" ∷ [];
  field_map = [];
}

abbrev named : Text → Object × List Value
named name =
    (record { type_of = users.model; values = (text "Name", str name) ∷ [] }, str name ∷ [])

named-IsPlain : (name : Text) → IsPlain log no_hooks no_format people (named name)
unfolding record_values read_values lookup text_dec ℕ_discrete call_method call_hook
named-IsPlain name = (refl, refl, λ s. refl)

insert_records-plain_example :
    (sql : Text) × (vars : List Arg) × (generate no_format values
        (row (named (text "Tom")).1 ∷ row (named (text "Sam")).1 ∷ [])
      ≡ ok (sql, vars))
    × (questions (statement (insert_clause people ∷ sql ∷ []))
        ≡ questions (insert_clause people) + length (vars ++ []))
    × (insert_records log no_hooks no_format
          ((named (text "Tom")).0 ∷ (named (text "Sam")).0 ∷ [])
          (fresh [] false (some people))
        ≡ executed log [] false (some people) (insert_clause people ∷ sql ∷ []) (vars ++ []))
insert_records-plain_example =
    insert_records-plain log no_hooks no_format [] false people (named (text "Tom")).0
      (named (text "Tom")).1 (named (text "Sam") ∷ []) 1 (named-IsPlain (text "Tom"))
      (named-IsPlain (text "Sam"), tt) (refl, (refl, tt))
