-- ===== src/Schema.antt =====
-- SORM/schema/schema.go and the SQLite dialect in SORM/dialect/sqlite3.go: the table that a struct
-- type is mapped to. A struct type is what `reflect` says of it.
pub mod Columns
pub mod Fields
mod Tests
use golang_frame_practice.Common.Assoc.{insert}
use golang_frame_practice.Common.Outcome.{Outcome, ok, err, panics, hangs, ◌>>=◌}
use golang_frame_practice.Common.{
  ℕ, Bool, true, false, not, ◌&&◌, Option, none, some, List, [], ◌∷◌, ◌++◌, lookup, Text, text,
  text_dec, if◌then◌else◌,
}
use golang_frame_practice.Clause.{Value, str, Arg, value}

-- `reflect.Kind`, as far as the dialect tells kinds apart; `time` is the struct `time.Time`.
pub data Kind : Type 0 where
  bool int int8 int16 int32 int64 uint uint8 uint16 uint32 uint64 uintptr : Kind
  float32 float64 string array slice time other : Kind

-- `ConvertTypeTo`, without the name of the type in the message of the panic.
unfoldable pub convert_type_to : Kind → Outcome Text
convert_type_to bool = ok (text "bool")
convert_type_to int = ok (text "int")
convert_type_to int8 = ok (text "int")
convert_type_to int16 = ok (text "int")
convert_type_to int32 = ok (text "int")
convert_type_to uintptr = ok (text "int")
convert_type_to uint = ok (text "int")
convert_type_to uint8 = ok (text "int")
convert_type_to uint16 = ok (text "int")
convert_type_to uint32 = ok (text "int")
convert_type_to float32 = ok (text "real")
convert_type_to float64 = ok (text "real")
convert_type_to int64 = ok (text "bigint")
convert_type_to uint64 = ok (text "bigint")
convert_type_to string = ok (text "text")
convert_type_to array = ok (text "blob")
convert_type_to slice = ok (text "blob")
convert_type_to time = ok (text "datetime")
convert_type_to other = panics (text "invalid sql type")

-- `TableExistsSQL`
unfoldable pub table_exists_sql : Text → Text × List Arg
table_exists_sql table_name = (
  text "SELECT name FROM sqlite_master WHERE TYPE= 'table' AND name= ?;",
  value (str table_name) ∷ [],
)

-- `reflect.StructField`, with the tag `sorm`.
pub record StructField : Type 0 where
  pub name : Text
  pub anonymous : Bool
  pub exported : Bool
  pub kind : Kind
  pub tag : Option Text

-- `reflect.Type` of a struct or of a pointer to one, with a number to tell types apart.
-- `table_name` is what the method `TableName` gives, if the type has it.
pub record StructType : Type 0 where
  pub id : ℕ
  pub name : Text
  pub table_name : Option Text
  pub struct_fields : List StructField

pub record Field : Type 0 where
  pub name : Text
  pub typ : Text
  pub tag : Text

-- The struct `Schema`. `model` is the type of its `Model`.
pub record Schema : Type 0 where
  pub model : StructType
  pub name : Text
  pub fields : List Field
  pub field_names : List Text
  pub field_map : List (Text × Field)

-- `GetField`: a missing key gives nil.
unfoldable pub get_field : Schema → Text → Option Field
get_field s name = lookup text_dec name s.field_map

-- A field that is added to a schema.
unfoldable pub add_field : Schema → Field → Schema
add_field s f = record s {
  fields = s.fields ++ f ∷ [];
  field_names = s.field_names ++ f.name ∷ [];
  field_map = insert text_dec f.name f s.field_map;
}

-- One round of the loop of `Parse`.
unfoldable pub parse_field : Schema → StructField → Outcome Schema
parse_field s p =
    if not p.anonymous && p.exported
    then (convert_type_to p.kind >>= λ typ. ok (
        add_field s
          (record { name = p.name; typ = typ; tag = elim p.tag [ none ↦ [] | some v ↦ v ] })))
    else ok s

unfoldable pub parse_fields : Schema → List StructField → Outcome Schema
parse_fields s [] = ok s
parse_fields s (p ∷ fields) = do s' ← parse_field s p; parse_fields s' fields

unfoldable pub parse : StructType → Outcome Schema
parse dest =
    parse_fields
      (record {
        model = dest;
        name = elim dest.table_name [ none ↦ dest.name | some n ↦ n ];
        fields = [];
        field_names = [];
        field_map = [];
      })
      dest.struct_fields

-- What `reflect` reads of a struct: its type and its fields.
pub record Object : Type 0 where
  pub type_of : StructType
  pub values : List (Text × Value)

-- The loop of `RecordValues`; `Interface` of a field that the struct does not have panics.
unfoldable pub read_values : List Field → Object → Outcome (List Value)
read_values [] dest = ok []
read_values (f ∷ fields) dest = elim (lookup text_dec f.name dest.values) [
  | none ↦ panics (text "call of reflect.Value.Interface on zero Value")
  | some v ↦ do rest ← read_values fields dest; ok (v ∷ rest)
]

-- `RecordValues`
unfoldable pub record_values : Schema → Object → Outcome (List Value)
record_values s dest = read_values s.fields dest
