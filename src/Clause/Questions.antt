-- ===== src/Clause/Questions.antt =====
-- SORM/clause/generator.go: how many placeholders a text has.
use golang_frame_practice.Common.Strings.{join, itoa, itoa_loop}
use golang_frame_practice.Common.{
  ℕ, zero, suc, ◌+◌, ◌/◌, ◌%◌, ◌≡◌, refl, ap, ◌∙◌, ◌==◌, List, [], ◌∷◌, ◌++◌, map, length,
  if◌then◌else◌, Text, text, arith,
}
use golang_frame_practice.Clause.{Value, Arg, value, row, marks, gen_bind_vars, comma}

-- How many placeholders a text has.
abbrev pub questions : Text → ℕ
questions [] = 0
questions (c ∷ s) = (if c == b'?' then 1 else 0) + questions s

pub questions-append : (s t : Text) → questions (s ++ t) ≡ questions s + questions t
questions-append [] t = omega arith
questions-append (c ∷ s) t = ground (arith, questions-append s t)

abbrev pub all_questions : List Text → ℕ
all_questions [] = 0
all_questions (s ∷ l) = questions s + all_questions l

pub questions-join :
    (sep : Text) (l : List Text) → questions sep ≡ 0 → questions (join sep l) ≡ all_questions l
unfolding join
questions-join sep [] h = refl
questions-join sep (s ∷ []) h = omega arith
questions-join sep (s ∷ t ∷ l) h = omega (
  arith,
  questions-append s (sep ++ join sep (t ∷ l)),
  questions-append sep (join sep (t ∷ l)),
  questions-join sep (t ∷ l) h,
)

pub all_questions-marks : (n : ℕ) → all_questions (marks n) ≡ n
unfolding marks
all_questions-marks zero = refl
all_questions-marks (suc n) = omega (arith, all_questions-marks n)

-- `genBindVars` writes as many placeholders as it is asked for.
pub questions-gen_bind_vars : (n : ℕ) → questions (gen_bind_vars n) ≡ n
unfolding gen_bind_vars
questions-gen_bind_vars n = questions-join (text ", ") (marks n) refl ∙ all_questions-marks n

pub questions-itoa_loop :
    (fuel n : ℕ) (digits : Text) → questions (itoa_loop fuel n digits) ≡ questions digits
unfolding itoa_loop
questions-itoa_loop zero n digits = refl
questions-itoa_loop (suc fuel) n digits =
    ground (arith, questions-itoa_loop fuel (n / 10) ((b'0' + n % 10) ∷ digits))

pub questions-itoa : (n : ℕ) → questions (itoa n) ≡ 0
unfolding itoa
questions-itoa n = questions-itoa_loop (n + 1) n []

-- Rows of `n` values each.
abbrev pub IsRows : ℕ → List Arg → Type 0
IsRows n [] = Unit
IsRows n (row v ∷ l) = (length v ≡ n) × IsRows n l
IsRows n (_ ∷ l) = ⊥

pub length-map_value : (v : List Value) → length (map value v) ≡ length v
length-map_value [] = refl
length-map_value (x ∷ v) = ap suc (length-map_value v)

pub questions-comma : (rest : List Arg) → questions (comma rest) ≡ 0
unfolding comma
questions-comma [] = refl
questions-comma (_ ∷ _) = refl

-- What one row adds to the statement.
pub questions-row :
    (sql g : Text) (rest : List Arg)
    → questions (sql ++ (text "(" ++ (g ++ (text ")" ++ comma rest)))) ≡ questions sql + questions g
questions-row sql g rest = omega (
  arith,
  questions-append sql (text "(" ++ (g ++ (text ")" ++ comma rest))),
  questions-append g (text ")" ++ comma rest),
  questions-comma rest,
)
