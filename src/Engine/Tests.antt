-- ===== src/Engine/Tests.antt =====
-- SORM/sorm.go: the columns of a migration.
use golang_frame_practice.Engine.Opening.{new_engine, register_all, init_dialects, new_engine-first}
use golang_frame_practice.Common.{
  ℕ, ◌+◌, refl, ◌≡◌, ◌&&◌, not, true, false, none, ◌++◌, length, lookup, text_dec, List, [], ◌∷◌,
  Text, text,
}
use golang_frame_practice.Common.Outcome.{Outcome, ok, err, exits}
use golang_frame_practice.Engine.{difference, unmarked, marked, transaction}
use golang_frame_practice.Engine.Migration.{statements}
use golang_frame_practice.Common.Assoc.{insert}
use golang_frame_practice.Schema.{Kind, string, int, StructField, Object, Field, Schema, get_field}
use golang_frame_practice.Engine.Transactions.{begun, transaction-undone, transaction-fatal}
use golang_frame_practice.Session.{Database, Action, ◌>>=◌, lift, return, exec, clear, new_session}
use golang_frame_practice.Engine.Difference.{lists-difference}
use golang_frame_practice.Registry.Alive.{lists}

abbrev old : List Text
old = text "Name" ∷ text "Age" ∷ []

lists-difference_example :
    lists (text "Age") (difference old (text "Name" ∷ []))
    ≡ (lists (text "Age") old && not (lists (text "Age") (text "Name" ∷ [])))
lists-difference_example = lists-difference (text "Age") old (text "Name" ∷ [])

-- A database of one counter, with the value that it had at the start of the transaction.
abbrev Counter : Type 0
Counter = ℕ × ℕ

abbrev counter : Database Counter ℕ
counter = record {
  exec = λ tx sql vars d. ((d.0, d.1 + 1), ok (ok 1));
  query = λ tx sql vars d. (d, ok []);
  query_row = λ tx sql vars d. (d, 0);
  scan = λ r dest. ok dest;
  scan_int = λ r. ok r;
  scan_text = λ r. ok [];
  close = λ d. (d, ok tt);
  begin_tx = λ d. ((d.1, d.1), ok tt);
  commit_tx = λ d. (d, ok tt);
  rollback_tx = λ d. ((d.0, d.0), ok tt);
}

-- It runs a statement and then fails.
abbrev failing : Action Counter ℕ
failing = exec counter >>= λ _. lift (err (text "no"))

transaction-undone_example :
    ((transaction counter failing (5, 5)).1 ≡ (failing (begun (5, 5) (5, 5))).1)
    × ((transaction counter failing (5, 5)).0.db ≡ (5, 5))
unfolding exec clear new_session
transaction-undone_example = transaction-undone counter failing (5, 5) (5, 5) refl tt refl

-- It counts a statement that it refuses, too.
abbrev refusing : Database Counter ℕ
refusing = record counter { exec = λ tx sql vars d. ((d.0, d.1 + 1), err (text "no such table")) }

-- A function whose statement is refused.
abbrev refused : Action Counter ℕ
refused = return tt >>= λ _. exec refusing >>= λ _. return 0

transaction-fatal_example :
    ((transaction refusing refused (5, 5)).1 ≡ exits (text "no such table"))
    × ((transaction refusing refused (5, 5)).0.db ≡ (5, 6))
unfolding new_session
transaction-fatal_example =
    transaction-fatal refusing (return tt) (λ _. return 0) (begun (5, 5) (5, 5)) (5, 5) (5, 5)
      (5, 6) (text "no such table") refl refl refl

-- A database that opens; the second dialect of the name is not taken.
abbrev open_seven : Text → Text → Outcome ℕ
open_seven driver source = ok 7

abbrev answers : ℕ → Outcome (Unit {0})
answers db = ok tt

abbrev calls : List (Text × ℕ)
calls = (text "mysql", 2) ∷ (text "mysql", 3) ∷ []

new_engine-first_example :
    new_engine open_seven answers (register_all calls (init_dialects 1)) (text "mysql") (text "dsn")
    ≡ ok (record { db = 7; dialect = 2 })
unfolding text_dec lookup golang_frame_practice.Common.ℕ_discrete
new_engine-first_example =
    new_engine-first open_seven answers 1 calls (text "mysql") (text "dsn") 7 refl refl

-- A struct with two fields, and its table.
abbrev field_of : Text → Kind → StructField
field_of name kind = record {
  name = name;
  anonymous = false;
  exported = true;
  kind = kind;
  tag = none;
}

abbrev user : Object
user = record {
  type_of = record {
    id = 0;
    name = text "User";
    table_name = none;
    struct_fields = field_of (text "Name") string ∷ field_of (text "Age") int ∷ [];
  };
  values = [];
}

abbrev name_field : Field
name_field = record { name = text "Name"; typ = text "text"; tag = [] }

abbrev age_field : Field
age_field = record { name = text "Age"; typ = text "int"; tag = [] }

abbrev users : Schema
users = record {
  model = user.type_of;
  name = text "User";
  fields = name_field ∷ age_field ∷ [];
  field_names = text "Name" ∷ text "Age" ∷ [];
  field_map = (text "Name", name_field) ∷ (text "Age", age_field) ∷ [];
}

-- A database that keeps the statements, with a table of other columns.
abbrev keeping : Database (List Text) (List Text)
keeping = record {
  exec = λ tx sql vars d. (d ++ sql ∷ [], ok (ok 1));
  query = λ tx sql vars d. (d, ok ((text "Name" ∷ text "Mail" ∷ []) ∷ []));
  query_row = λ tx sql vars d. (d, text "User" ∷ []);
  scan = λ r dest. ok dest;
  scan_int = λ r. ok 0;
  scan_text = λ r. elim r [ [] ↦ ok [] | t ∷ _ ↦ ok t ];
  close = λ d. (d, ok tt);
  begin_tx = λ d. (d, ok tt);
  commit_tx = λ d. (d, ok tt);
  rollback_tx = λ d. (d, ok tt);
}

abbrev first_row : List (List Text) → List Text
first_row [] = []
first_row (r ∷ _) = r

abbrev had : List Text
had = text "Name" ∷ text "Mail" ∷ []

-- The field Age is added, and the column Mail makes the table be replaced.
added : length (statements users had) ≡ 2
unfolding difference unmarked marked get_field insert text_dec lookup
    golang_frame_practice.Common.ℕ_discrete
added = refl
