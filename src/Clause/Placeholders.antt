-- ===== src/Clause/Placeholders.antt =====
-- SORM/clause/generator.go: a generated clause has a `?` for each of its variables.
use golang_frame_practice.Common.Outcome.{ok}
use golang_frame_practice.Common.Strings.{join}
use golang_frame_practice.Common.{
  ℕ, suc, ◌+◌, ◌*◌, ◌≡◌, refl, ap, ◌∙◌, ◌⊎◌, inl, inr, List, [], ◌∷◌, ◌++◌, map, length,
  length-append, Text, text, All, arith,
}
use golang_frame_practice.Clause.{
  Value, str, num, Arg, value, strings, row, fields, ClauseType, insert_into, values, select, limit,
  where_, order_by, update, delete, count, Generated, gen_bind_vars, comma, verb_s, verb_d,
  gen_select, gen_insert, gen_limit, gen_order_by, gen_where, update_items, gen_update, gen_delete,
  gen_count, values_loop, gen_values, generate,
}
use golang_frame_practice.Clause.Questions.{
  questions, questions-append, all_questions, questions-join, questions-gen_bind_vars,
  questions-itoa, IsRows, length-map_value, questions-row,
}

module _ (format : Arg → Text) where
  -- What the loop of `_values` returns for rows of `n` values.
  pub record Rows (n : ℕ) (rows : List Arg) (bind_str sql : Text) (vars : List Arg) : Type 0 where
    pub result : Text × List Arg
    pub runs : values_loop format rows bind_str sql vars ≡ ok result
    pub written : questions result.0 ≡ questions sql + n * length rows
    pub bound : length result.1 ≡ length vars + n * length rows

  row-Rows :
      (n : ℕ) (v : List Value) (rest : List Arg) (g sql : Text) (vars : List Arg)
      → length v ≡ n
      → questions g ≡ n
      → (r : Rows n rest g
          (sql ++ (text "(" ++ (g ++ (text ")" ++ comma rest))))
          (vars ++ map value v))
      → (questions r.result.0 ≡ questions sql + n * suc (length rest))
        × (length r.result.1 ≡ length vars + n * suc (length rest))
  row-Rows n v rest g sql vars e q r = (
    grind (arith, r.written, questions-row sql g rest),
    grind (arith, r.bound, length-append vars (map value v), length-map_value v),
  )

  -- Rows of one length are written with a placeholder for each value.
  pub values_loop-Rows :
      (n : ℕ) (rows : List Arg) (bind_str sql : Text) (vars : List Arg)
      → IsRows n rows
      → (bind_str ≡ []) ⊎ (bind_str ≡ gen_bind_vars n)
      → Rows n rows bind_str sql vars
  unfolding values_loop
  values_loop-Rows n [] bind_str sql vars h b = record {
    result = (sql, vars);
    runs = refl;
    written = omega arith;
    bound = omega arith;
  }
  values_loop-Rows n (row v ∷ rest) [] sql vars h b =
      let g : Text = gen_bind_vars (length v) in
      let r =
        values_loop-Rows n rest g (sql ++ (text "(" ++ (g ++ (text ")" ++ comma rest))))
          (vars ++ map value v) h.1 (inr (ap gen_bind_vars h.0)) in
      let t = row-Rows n v rest g sql vars h.0 (questions-gen_bind_vars (length v) ∙ h.0) r in
      record { result = r.result; runs = r.runs; written = t.0; bound = t.1 }
  values_loop-Rows n (row v ∷ rest) (c ∷ s) sql vars h b =
      let e : ◌≡◌ {A = Text} (c ∷ s) (gen_bind_vars n) = full b in
      let r =
        values_loop-Rows n rest (c ∷ s) (sql ++ (text "(" ++ ((c ∷ s) ++ (text ")" ++ comma rest))))
          (vars ++ map value v) h.1 (inr e) in
      let t =
        row-Rows n v rest (c ∷ s) sql vars h.0 (ap questions e ∙ questions-gen_bind_vars n) r in
      record { result = r.result; runs = r.runs; written = t.0; bound = t.1 }
    where
      full :
          (◌≡◌ {A = Text} (c ∷ s) []) ⊎ (◌≡◌ {A = Text} (c ∷ s) (gen_bind_vars n))
          → ◌≡◌ {A = Text} (c ∷ s) (gen_bind_vars n)
      full (inl e) = cc
      full (inr e) = e
  values_loop-Rows n (_ ∷ rest) bind_str sql vars h b = absurd h

-- What a caller of a generator must give it: texts without placeholders, rows of one length, and a
-- condition with a placeholder for each of its variables.
abbrev pub IsMarked : ClauseType → List Arg → Type 0
IsMarked insert_into (value (str t) ∷ strings l ∷ _) = (questions t ≡ 0) × (all_questions l ≡ 0)
IsMarked select (value (str t) ∷ strings l ∷ _) = (questions t ≡ 0) × (all_questions l ≡ 0)
IsMarked values rows = (n : ℕ) × IsRows n rows
IsMarked limit (value (num _) ∷ _) = Unit
IsMarked where_ (value (str desc) ∷ vars) = questions desc ≡ length vars
IsMarked order_by (value (str desc) ∷ _) = questions desc ≡ 0
IsMarked update (value (str t) ∷ fields l ∷ _) = (questions t ≡ 0) × All (λ e. questions e.0 ≡ 0) l
IsMarked delete (value (str t) ∷ _) = questions t ≡ 0
IsMarked count (value (str t) ∷ _) = questions t ≡ 0
IsMarked _ _ = ⊥

-- A generated clause, with as many placeholders as variables.
pub record Balanced (g : Generated) : Type 0 where
  pub result : Text × List Arg
  pub runs : g ≡ ok result
  pub even : questions result.0 ≡ length result.1

update_items-questions :
    (l : List (Text × Value))
    → All (λ e. questions e.0 ≡ 0) l
    → all_questions (update_items l).0 ≡ length (update_items l).1
unfolding update_items
update_items-questions [] h = refl
update_items-questions ((k, v) ∷ l) h =
    omega (arith, questions-append k (text " = ?"), update_items-questions l h.1)

select_even :
    (t : Text) (l : List Text)
    → questions t ≡ 0
    → all_questions l ≡ 0
    → questions (text "SELECT " ++ (join (text ",") l ++ (text " FROM " ++ t))) ≡ 0
select_even t l h k = omega (
  arith,
  questions-append (join (text ",") l) (text " FROM " ++ t),
  questions-join (text ",") l refl,
)

module _ (format : Arg → Text) where
  -- Every generator, on arguments without placeholders of their own but for a condition with one for
  -- each of its variables, succeeds with as many placeholders in its text as variables.
  pub generate-Balanced :
      (typ : ClauseType) (args : List Arg) → IsMarked typ args → Balanced (generate format typ args)
  unfolding generate gen_insert gen_values gen_select gen_where gen_limit gen_order_by gen_update
      gen_delete gen_count verb_s verb_d
  generate-Balanced insert_into (value (str t) ∷ strings l ∷ _) h = record {
    result = _;
    runs = refl;
    even = omega (
      arith,
      questions-append t (text " (" ++ (join (text ",") l ++ text ")")),
      questions-append (join (text ",") l) (text ")"),
      questions-join (text ",") l refl,
      h,
    );
  }
  generate-Balanced select (value (str t) ∷ strings l ∷ _) h = record {
    result = _;
    runs = refl;
    even = select_even t l h.0 h.1;
  }
  generate-Balanced values rows h =
      let r = values_loop-Rows format h.0 rows [] (text "VALUES") [] h.1 (inl refl) in
      record { result = r.result; runs = r.runs; even = omega (arith, r.written, r.bound) }
  generate-Balanced limit (value (num n) ∷ _) h = record {
    result = _;
    runs = refl;
    even = omega (arith, questions-itoa n);
  }
  generate-Balanced where_ (value (str desc) ∷ vars) h = record {
    result = _;
    runs = refl;
    even = omega arith;
  }
  generate-Balanced order_by (value (str desc) ∷ _) h = record {
    result = _;
    runs = refl;
    even = omega arith;
  }
  generate-Balanced update (value (str t) ∷ fields l ∷ _) h = record {
    result = _;
    runs = refl;
    even = omega (
      arith,
      questions-append t (text " SET " ++ join (text ", ") (update_items l).0),
      questions-join (text ", ") (update_items l).0 refl,
      update_items-questions l h.1,
      h,
    );
  }
  generate-Balanced delete (value (str t) ∷ _) h = record {
    result = _;
    runs = refl;
    even = omega arith;
  }
  generate-Balanced count (value (str t) ∷ _) h = record {
    result = _;
    runs = refl;
    even = select_even t (text "COUNT(*)" ∷ []) h refl;
  }
  generate-Balanced _ _ h = absurd h
