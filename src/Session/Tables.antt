-- ===== src/Session/Tables.antt =====
-- SORM/session/table.go: the table of a session.
use golang_frame_practice.Common.Outcome.{Outcome, ok, err}
use golang_frame_practice.Common.Strings.{join}
use golang_frame_practice.Common.{
  Bool, true, false, none, some, [], ◌++◌, map, ℕ_discrete, Text, text, text_dec,
}
use golang_frame_practice.Schema.{Field, Object, parse, table_exists_sql}
use golang_frame_practice.Session.{
  Database, Session, Action, after, ◌>>=◌, return, lift, raw, get_ref_table, table_of, exec,
  query_row,
}

-- A column in `CreateTable`.
unfoldable pub column : Field → Text
column f = f.name ++ (text " " ++ (f.typ ++ (text " " ++ f.tag)))

-- `Model`
unfoldable pub model : {D : Type 0} → Object → Action D (Unit {0})
model {D = D} dest s =
    let parsed : Session D × Outcome (Unit {0}) =
      after (s, parse dest.type_of) (λ table s'. (record s' { ref_table = some table }, ok tt)) in
    elim s.ref_table [
      | none ↦ parsed
      | some table ↦ elim (ℕ_discrete dest.type_of.id table.model.id) [
        | yes _ ↦ (s, ok tt)
        | no _ ↦ parsed
      ]
    ]

-- What `tmp` holds after `Scan`, whose error is dropped.
unfoldable pub scanned : Outcome Text → Outcome Text
scanned (err e) = ok []
scanned r = r

module _ {D Row : Type 0} (db : Database D Row) where
  -- `CreateTable`
  unfoldable pub create_table : Action D (Unit {0})
  create_table = do
    table ← table_of
    _ ← λ s. exec db (
        raw
          (text "CREATE TABLE "
            ++ (table.name
                ++ (text " (" ++ (join (text ",") (map column table.fields) ++ text ");"))))
          [] s)
    return tt

  -- `DropTable`
  unfoldable pub drop_table : Action D (Unit {0})
  drop_table = do
    table ← table_of
    _ ← λ s. exec db (raw (text "DROP TABLE " ++ table.name) [] s)
    return tt

  -- `HasTable`
  unfoldable pub has_table : Action D Bool
  has_table = do
    before ← table_of
    r ← λ s. query_row db (raw (table_exists_sql before.name).0 (table_exists_sql before.name).1 s)
    tmp ← lift (scanned (db.scan_text r))
    table ← get_ref_table
    return (elim (text_dec tmp table.name) [ yes _ ↦ true | no _ ↦ false ])
