-- ===== src/Schema/Fields.antt =====
-- SORM/schema/schema.go: the fields that `Parse` puts into the map of a table.
use mathlib.Core.Path.{subst}
use golang_frame_practice.Common.Assoc.{lookup-insert, lookup-insert_self}
use golang_frame_practice.Common.Outcome.{Outcome, ok, err, panics, hangs, exits, ◌>>=◌}
use golang_frame_practice.Common.{
  ◌≡◌, ◌⊎◌, refl, ◌∙◌, none, some, List, [], ◌∷◌, ◌++◌, not, ◌&&◌, Text, text_dec, arith, All,
  Bool-cases, inl, inr,
}
use golang_frame_practice.Schema.{
  Field, Schema, StructField, StructType, get_field, add_field, parse_field, parse_fields, parse,
  convert_type_to,
}

-- Names with a field in the map.
abbrev pub HasFields : Schema → List Text → Type 0
HasFields table names = All (λ (n : Text). (f : Field) × (get_field table n ≡ some f)) names

-- All fields are in the map.
abbrev IsFull : Schema → Type 0
IsFull table = HasFields table table.field_names

HasFields-add :
    (s : Schema) (g : Field) (names : List Text)
    → HasFields s names
    → HasFields (add_field s g) (names ++ g.name ∷ [])
unfolding get_field add_field
HasFields-add s g [] h = ((g, lookup-insert_self text_dec g.name g s.field_map), tt)
HasFields-add s g (n ∷ names) ((f, e), h) = (
  elim (text_dec n g.name) [
    | yes p ↦ (g, lookup-insert text_dec g.name n g s.field_map ∙ ground (arith, p))
    | no p ↦ (f, lookup-insert text_dec g.name n g s.field_map ∙ ground (arith, p, e))
  ],
  HasFields-add s g names h,
)

bind_ok :
    {A B : Type 0} (o : Outcome A) (f : A → Outcome B) (b : B)
    → (o >>= f) ≡ ok b
    → (a : A) × (o ≡ ok a) × (f a ≡ ok b)
bind_ok (ok a) f b e = (a, refl, e)
bind_ok (err x) f b e = absurd (ground (arith, e))
bind_ok (panics x) f b e = absurd (ground (arith, e))
bind_ok hangs f b e = absurd (ground (arith, e))
bind_ok (exits x) f b e = absurd (ground (arith, e))

parse_field-cases :
    (s t : Schema) (p : StructField)
    → parse_field s p ≡ ok t
    → (s ≡ t) ⊎ ((g : Field) × (add_field s g ≡ t))
unfolding parse_field
parse_field-cases s t p e = elim (Bool-cases (not p.anonymous && p.exported)) [
  | inl b ↦
      let field : Text → Field =
        λ typ. record { name = p.name; typ = typ; tag = elim p.tag [ none ↦ [] | some v ↦ v ] } in
      let (typ, _, q) =
        bind_ok (convert_type_to p.kind) (λ typ. ok (add_field s (field typ))) t
          (ground (arith, e, b)) in
      inr (field typ, ground (arith, q))
  | inr b ↦ inl (ground (arith, e, b))
]

parse_field-IsFull : (s t : Schema) (p : StructField) → parse_field s p ≡ ok t → IsFull s → IsFull t
unfolding add_field
parse_field-IsFull s t p e h = elim (parse_field-cases s t p e) [
  | inl q ↦ subst IsFull q h
  | inr (g, q) ↦ subst IsFull q (HasFields-add s g s.field_names h)
]

parse_fields-IsFull :
    (s t : Schema) (l : List StructField) → parse_fields s l ≡ ok t → IsFull s → IsFull t
unfolding parse_fields
parse_fields-IsFull s t [] e h = subst IsFull (ground (arith, e)) h
parse_fields-IsFull s t (p ∷ l) e h =
    let (u, d, q) = bind_ok (parse_field s p) (λ u. parse_fields u l) t e in
    parse_fields-IsFull u t l q (parse_field-IsFull s u p d h)

-- Every name of a field leads to a field.
pub parse-HasFields :
    (dest : StructType) (table : Schema) → parse dest ≡ ok table → HasFields table table.field_names
unfolding parse
parse-HasFields dest table e = parse_fields-IsFull _ table dest.struct_fields e tt
