-- ===== src/Schema/Tests.antt =====
-- SORM/schema/schema.go: a struct with two columns and a field that is not exported.
use golang_frame_practice.Clause.{Value, str, num}
use golang_frame_practice.Common.Outcome.{ok}
use golang_frame_practice.Common.Assoc.{insert}
use golang_frame_practice.Common.{
  ◌≡◌, refl, true, false, none, some, List, [], ◌∷◌, lookup, text, text_dec, ℕ_discrete,
}
use golang_frame_practice.Schema.{
  string, int, other, StructType, Schema, Field, Object, convert_type_to, add_field, parse_field,
  parse_fields, parse, read_values, record_values, get_field,
}

abbrev user : StructType
user = record {
  id = 0;
  name = text "User";
  table_name = none;
  struct_fields =
      record {
        name = text "Name";
        anonymous = false;
        exported = true;
        kind = string;
        tag = some (text "PRIMARY KEY");
      }
      ∷ record { name = text "Age"; anonymous = false; exported = true; kind = int; tag = none }
      ∷ record { name = text "lock"; anonymous = false; exported = false; kind = other; tag = none }
      ∷ [];
}

abbrev name_field : Field
name_field = record { name = text "Name"; typ = text "text"; tag = text "PRIMARY KEY" }

abbrev age_field : Field
age_field = record { name = text "Age"; typ = text "int"; tag = [] }

abbrev users : Schema
users = record {
  model = user;
  name = text "User";
  fields = name_field ∷ age_field ∷ [];
  field_names = text "Name" ∷ text "Age" ∷ [];
  field_map = (text "Name", name_field) ∷ (text "Age", age_field) ∷ [];
}

abbrev tom : Object
tom = record {
  type_of = user;
  values = (text "Name", str (text "Tom")) ∷ (text "Age", num 12) ∷ [];
}

abbrev row : List Value
row = str (text "Tom") ∷ num 12 ∷ []

-- The definitions that a run computes with.
program : Unit {0}
unfolding convert_type_to add_field parse_field parse_fields parse read_values record_values
    get_field insert lookup text_dec
program = tt

parsed : parse user ≡ ok users
unfolding program ℕ_discrete
parsed = refl

read : record_values users tom ≡ ok row
unfolding program ℕ_discrete
read = refl
