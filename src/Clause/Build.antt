-- ===== src/Clause/Build.antt =====
-- SORM/clause/clause.go: `Set` and `Build` keep placeholders and variables in step, and the order of
-- the calls of `Set` does not show.
use golang_frame_practice.Common.Assoc.{insert, lookup-insert_self, lookup-insert_ne, insert_comm}
use golang_frame_practice.Common.Outcome.{ok, ◌>>=◌}
use golang_frame_practice.Common.Strings.{join}
use golang_frame_practice.Common.{
  ◌≡◌, refl, ap, ◌∙◌, ◌≢◌, some, List, [], ◌∷◌, lookup, length, length-append, Text, text, arith,
  inl, inr, Option-cases,
}
use golang_frame_practice.Clause.{
  Arg, ClauseType, type_dec, Clause, empty_clause, generate, set, vars_at, build_loop, build,
}
use golang_frame_practice.Clause.Placeholders.{IsMarked, Balanced, generate-Balanced}
use golang_frame_practice.Clause.Questions.{questions, all_questions, questions-join}

-- Every clause that is set has a placeholder for each of its variables.
abbrev pub IsBalanced : Clause → Type 0
IsBalanced c =
    (typ : ClauseType) (sql : Text)
    → lookup type_dec typ c.sql ≡ some sql
    → questions sql ≡ length (vars_at typ c)

-- An empty clause has no clause set.
pub empty-IsBalanced : IsBalanced empty_clause
unfolding lookup
empty-IsBalanced typ sql h = cc

module _ (format : Arg → Text) where
  -- The clause after a `Set` with marked arguments.
  pub record WasSet (c d : Clause) (typ : ClauseType) : Type 0 where
    pub sql : Text
    pub vars : List Arg
    pub sqls : d.sql ≡ insert type_dec typ sql c.sql
    pub sql_vars : d.sql_vars ≡ insert type_dec typ vars c.sql_vars
    pub even : questions sql ≡ length vars

  pub set-WasSet :
      (c : Clause) (typ : ClauseType) (args : List Arg)
      → IsMarked typ args
      → (d : Clause) × (set format c typ args ≡ ok d) × WasSet c d typ
  unfolding set
  set-WasSet c typ args m =
      let b : Balanced (generate format typ args) = generate-Balanced format typ args m in
      (
        record {
          sql = insert type_dec typ b.result.0 c.sql;
          sql_vars = insert type_dec typ b.result.1 c.sql_vars;
        },
        ground (arith, b.runs),
        record { sql = b.result.0; vars = b.result.1; sqls = refl; sql_vars = refl; even = b.even },
      )

  WasSet-IsBalanced :
      (c d : Clause) (typ : ClauseType) → WasSet c d typ → IsBalanced c → IsBalanced d
  unfolding vars_at
  WasSet-IsBalanced c d typ w h t sql e = elim (type_dec t typ) [
    | yes p ↦ ground (
      arith,
      p,
      e,
      w.sqls,
      w.sql_vars,
      w.even,
      lookup-insert_self type_dec typ w.sql c.sql,
      lookup-insert_self type_dec typ w.vars c.sql_vars,
    )
    | no p ↦ ground (
      arith,
      p,
      e,
      w.sqls,
      w.sql_vars,
      h t sql,
      lookup-insert_ne type_dec typ t w.sql c.sql p,
      lookup-insert_ne type_dec typ t w.vars c.sql_vars p,
    )
  ]

  -- `Set` with such arguments, on clauses with as many placeholders as variables each, succeeds and
  -- keeps them so.
  pub set-IsBalanced :
      (c : Clause) (typ : ClauseType) (args : List Arg)
      → IsMarked typ args
      → IsBalanced c
      → (d : Clause) × (set format c typ args ≡ ok d) × IsBalanced d
  set-IsBalanced c typ args m h =
      let (d, e, w) = set-WasSet c typ args m in (d, e, WasSet-IsBalanced c d typ w h)

build_loop-even :
    (c : Clause) (types : List ClauseType)
    → IsBalanced c
    → all_questions (build_loop c types).0 ≡ length (build_loop c types).1
unfolding build_loop
build_loop-even c [] h = refl
build_loop-even c (typ ∷ types) h = elim (Option-cases (lookup type_dec typ c.sql)) [
  | inl e ↦ ground (arith, e, build_loop-even c types h)
  | inr (sql, e) ↦ ground (
    arith,
    e,
    h typ sql e,
    build_loop-even c types h,
    length-append (vars_at typ c) (build_loop c types).1,
  )
]

-- `Build` of clauses with as many placeholders as variables each, in any order of types, gives a
-- statement with as many placeholders as variables, and leaves the clauses empty.
pub build-IsBalanced :
    (c : Clause) (types : List ClauseType)
    → IsBalanced c
    → (questions (build c types).1.0 ≡ length (build c types).1.1)
      × ((build c types).0 ≡ empty_clause)
unfolding build
build-IsBalanced c types h =
    (questions-join (text " ") (build_loop c types).0 refl ∙ build_loop-even c types h, refl)

-- What `Build` reads of two clauses.
abbrev pub Same : Clause → Clause → Type 0
Same c d =
    (typ : ClauseType)
    → (lookup type_dec typ c.sql ≡ lookup type_dec typ d.sql) × (vars_at typ c ≡ vars_at typ d)

build_loop-Same :
    (c d : Clause) (types : List ClauseType) → Same c d → build_loop c types ≡ build_loop d types
unfolding build_loop
build_loop-Same c d [] h = refl
build_loop-Same c d (typ ∷ types) h = ground (arith, h typ, build_loop-Same c d types h)

-- The clause with one more entry in each map.
abbrev put : Clause → ClauseType → Text × List Arg → Clause
put c typ g = record {
  sql = insert type_dec typ g.0 c.sql;
  sql_vars = insert type_dec typ g.1 c.sql_vars;
}

put_comm :
    (c : Clause) (s t : ClauseType) (x y : Text × List Arg)
    → s ≢ t
    → Same (put (put c s x) t y) (put (put c t y) s x)
unfolding vars_at
put_comm c s t x y ne typ = (
  insert_comm type_dec s t typ x.0 y.0 c.sql ne,
  ground (arith, insert_comm type_dec s t typ x.1 y.1 c.sql_vars ne),
)

module _ (format : Arg → Text) where
  -- Two clauses of different types, with such arguments, can be set in either order: both orders succeed,
  -- and `Build` gives the same from both.
  pub build-set_comm :
      (c : Clause) (s t : ClauseType) (a b : List Arg) (types : List ClauseType)
      → s ≢ t
      → IsMarked s a
      → IsMarked t b
      → (d : Clause) × (d' : Clause) × ((set format c s a >>= λ e. set format e t b) ≡ ok d)
        × ((set format c t b >>= λ e. set format e s a) ≡ ok d')
        × (build d types ≡ build d' types)
  unfolding set build
  build-set_comm c s t a b types ne m n =
      let x : Balanced (generate format s a) = generate-Balanced format s a m in
      let y : Balanced (generate format t b) = generate-Balanced format t b n in
      (
        put (put c s x.result) t y.result,
        put (put c t y.result) s x.result,
        ground (arith, x.runs, y.runs),
        ground (arith, x.runs, y.runs),
        ap (λ (r : List Text × List Arg). (empty_clause, (join (text " ") r.0, r.1)))
            (build_loop-Same (put (put c s x.result) t y.result) (put (put c t y.result) s x.result)
              types (put_comm c s t x.result y.result ne)),
      )
