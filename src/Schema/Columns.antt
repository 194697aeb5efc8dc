-- ===== src/Schema/Columns.antt =====
-- SORM/schema/schema.go: the columns of a parsed schema, and the values of a record.
use golang_frame_practice.Common.Outcome.{Outcome, ok, err, panics, hangs, exits, ◌>>=◌}
use golang_frame_practice.Common.{
  ◌≡◌, refl, sym, ◌∙◌, true, not, ◌&&◌, none, some, List, [], ◌∷◌, lookup, length, length-append,
  text_dec, arith, inl, inr, Bool-cases, Option-cases,
}
use golang_frame_practice.Clause.{Value}
use golang_frame_practice.Schema.{
  Field, StructField, StructType, Schema, Object, convert_type_to, add_field, parse_field,
  parse_fields, parse, read_values, record_values,
}

ok-bind :
    {A B : Type 0} (o : Outcome A) {f : A → Outcome B} {b : B}
    → (o >>= f) ≡ ok b
    → (a : A) × (o ≡ ok a) × (f a ≡ ok b)
ok-bind (ok a) e = (a, refl, e)
ok-bind (err x) e = cc
ok-bind (panics x) e = cc
ok-bind hangs e = cc
ok-bind (exits msg) e = cc

added :
    (s : Schema) (p : StructField)
    → (not p.anonymous && p.exported) ≡ true
    → parse_field s p ≡ (
        convert_type_to p.kind >>= λ typ. ok (
          add_field s
            (record { name = p.name; typ = typ; tag = elim p.tag [ none ↦ [] | some v ↦ v ] })))
unfolding parse_field
added s p h = simp h refl

read_more :
    (f : Field) (l : List Field) (dest : Object) (v : Value)
    → lookup text_dec f.name dest.values ≡ some v
    → read_values (f ∷ l) dest ≡ (read_values l dest >>= λ rest. ok (v ∷ rest))
unfolding read_values
read_more f l dest v e = rw (e, read_values) refl

add_field-even :
    (s : Schema) (f : Field)
    → length s.field_names ≡ length s.fields
    → length (add_field s f).field_names ≡ length (add_field s f).fields
unfolding add_field
add_field-even s f h =
    omega (arith, h, length-append s.field_names (f.name ∷ []), length-append s.fields (f ∷ []))

parse_field-even :
    (s t : Schema) (p : StructField)
    → parse_field s p ≡ ok t
    → length s.field_names ≡ length s.fields
    → length t.field_names ≡ length t.fields
unfolding parse_field
parse_field-even s t p e h = elim (Bool-cases (not p.anonymous && p.exported)) [
  | inl use_it ↦
      let (typ, _, q) = ok-bind (convert_type_to p.kind) (sym (added s p use_it) ∙ e) in
      let f : Field = record {
        name = p.name;
        typ = typ;
        tag = elim p.tag [ none ↦ [] | some v ↦ v ];
      } in
      ground (arith, q, add_field-even s f h)
  | inr skip ↦ ground (arith, e, h, skip)
]

parse_fields-even :
    (s t : Schema) (l : List StructField)
    → parse_fields s l ≡ ok t
    → length s.field_names ≡ length s.fields
    → length t.field_names ≡ length t.fields
unfolding parse_fields
parse_fields-even s t [] e h = ground (arith, e, h)
parse_fields-even s t (p ∷ l) e h =
    let (s', q, r) = ok-bind (parse_field s p) e in
    parse_fields-even s' t l r (parse_field-even s s' p q h)

read_values-length :
    (l : List Field) (dest : Object) (vs : List Value)
    → read_values l dest ≡ ok vs
    → length vs ≡ length l
unfolding read_values
read_values-length [] dest vs e = ground (arith, e)
read_values-length (f ∷ l) dest vs e = elim (Option-cases (lookup text_dec f.name dest.values)) [
  | inl miss ↦ ground (arith, e, miss)
  | inr (v, found) ↦
      let (rest, q, r) = ok-bind (read_values l dest) (sym (read_more f l dest v found) ∙ e) in
      ground (arith, r, read_values-length l dest rest q)
]

-- The values of a record, if it has them all, are as many as the names of the columns of any parsed
-- type, so that the rows of `Insert` fit its columns.
pub record_values-length :
    (t : StructType) (s : Schema) (dest : Object) (vs : List Value)
    → parse t ≡ ok s
    → record_values s dest ≡ ok vs
    → length vs ≡ length s.field_names
unfolding parse record_values
record_values-length t s dest vs e r =
    read_values-length s.fields dest vs r ∙ sym (parse_fields-even _ s t.struct_fields e refl)
