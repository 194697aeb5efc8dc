-- ===== src/Engine/Migration.antt =====
-- SORM/sorm.go: the statements that `Migrate` sends when the database takes all of them.
use golang_frame_practice.Common.Outcome.{Outcome, ok}
use golang_frame_practice.Common.Strings.{join}
use golang_frame_practice.Common.{
  ℕ, ◌==◌, ◌≡◌, true, none, some, List, [], ◌∷◌, ◌++◌, map, length, if◌then◌else◌, Text, text,
}
use golang_frame_practice.Engine.{difference}
use golang_frame_practice.Schema.{Schema, Object, get_field, parse, table_exists_sql}
use golang_frame_practice.Session.{Database, exec, query, query_row}

-- The statement for a column that is added, with the blank that `Raw` puts behind it.
abbrev pub alter : Schema → Text → Text
alter table col = elim (get_field table col) [
  | none ↦ []
  | some field ↦
      (text "ALTER TABLE "
        ++ (table.name
            ++ (text " ADD COLUMN " ++ (field.name ++ (text " " ++ (field.typ ++ text ";"))))))
      ++ text " "
]

-- The statements that put a table with the columns of the struct in place of the old one.
abbrev pub replacing : Schema → Text
replacing table =
    let tmp : Text = text "tmp_" ++ table.name in
    let names : Text = join (text ", ") table.field_names in
    let create : Text =
      text "CREATE TABLE "
      ++ (tmp ++ (text " AS SELECT " ++ (names ++ (text " FROM " ++ (table.name ++ text " ;"))))) in
    let drop : Text = text "DROP TABLE " ++ (table.name ++ text ";") in
    let rename : Text = text "ALTER TABLE " ++ (tmp ++ (text " RENAME TO " ++ table.name)) in
    ((create ++ text " ") ++ (drop ++ text " ")) ++ (rename ++ text " ")

abbrev pub last_statements : Schema → List Text → List Text
last_statements table old =
    if length (difference old table.field_names) == 0 then [] else replacing table ∷ []

abbrev pub statements : Schema → List Text → List Text
statements table old =
    map (alter table) (difference table.field_names old) ++ last_statements table old

module _ {D Row : Type 0} (db : Database D Row) where
  -- In the transaction, the database takes these statements one behind the other; what `RowsAffected`
  -- gives for them does not matter.
  abbrev pub Accepts : List Text → D → D → Type 0
  Accepts [] d d' = d ≡ d'
  Accepts (sql ∷ l) d d' =
      (d1 : D) × (n : Outcome ℕ) × (db.exec true sql [] d ≡ (d1, ok n)) × Accepts l d1 d'

module _ {D Row : Type 0} (db : Database D Row) (columns : List Row → List Text) where
  -- What `Migrate` reads of the database before it changes it: the name of the table, and its columns.
  pub record Reads (dest : Object) (table : Schema) (old : List Text) (d1 d3 : D) : Type 0 where
    pub parsed : parse dest.type_of ≡ ok table
    pub d2 : D
    pub row : Row
    pub named :
        db.query_row true
          ((table_exists_sql table.name).0 ++ text " ")
          (table_exists_sql table.name).1
          d1
        ≡ (d2, row)
    pub exists : db.scan_text row ≡ ok table.name
    pub rows : List Row
    pub read :
        db.query true
          ((text "SELECT * FROM " ++ (table.name ++ text " LIMIT 1;")) ++ text " ")
          []
          d2
        ≡ (d3, ok rows)
    pub has : columns rows ≡ old
