-- ===== src/Engine/Opening.antt =====
-- SORM/dialect/dialect.go and SORM/sorm.go: the registry of dialects, and the opening of an engine.
use golang_frame_practice.Common.Assoc.{insert, lookup-insert}
use golang_frame_practice.Common.Outcome.{Outcome, ok, err, exits, ◌>>=◌}
use golang_frame_practice.Common.{
  ◌≡◌, ◌≢◌, ◌∙◌, Option, none, some, List, [], ◌∷◌, ◌++◌, lookup, Text, text, text_dec, arith,
}
use golang_frame_practice.Logger.{fatal}
use golang_frame_practice.Session.{Session, new_session}

-- `C` stands for `*sql.DB` and `D` for the interface `Dialector`.
pub record Engine (C D : Type 0) : Type 0 where
  pub db : C
  pub dialect : D

module _ {D : Type 0} where
  -- `RegisterDialect`: the first dialect of a name stays.
  unfoldable pub register_dialect : Text → D → List (Text × D) → List (Text × D)
  register_dialect name dialect m = elim (lookup text_dec name m) [
    | some _ ↦ m
    | none ↦ insert text_dec name dialect m
  ]

  -- The calls of `RegisterDialect`, in order.
  unfoldable pub register_all : List (Text × D) → List (Text × D) → List (Text × D)
  register_all [] m = m
  register_all ((name, dialect) ∷ calls) m = register_all calls (register_dialect name dialect m)

  -- `init` of the package.
  unfoldable pub init_dialects : D → List (Text × D)
  init_dialects sqlite3 = register_dialect (text "sqlite3") sqlite3 []

  -- `GetDialect`
  unfoldable pub get_dialect : Text → List (Text × D) → Option D
  get_dialect name m = lookup text_dec name m

-- The error of `Ping` is not part of the message.
abbrev fatal_ping : Outcome (Unit {0}) → Outcome (Unit {0})
fatal_ping (err e) = exits (text "cannot connect to database")
fatal_ping r = r

module _ {C D : Type 0} (open_db : Text → Text → Outcome C) (ping : C → Outcome (Unit {0})) where
  -- `NewEngine`: each of its errors is logged with `Error` or `Errorf` first, which end the program.
  unfoldable pub new_engine : List (Text × D) → Text → Text → Outcome (Engine C D)
  new_engine dialects driver source = fatal [] (open_db driver source) >>= λ db.
      fatal_ping (ping db) >>= λ _. elim (get_dialect driver dialects) [
        | none ↦ exits (text "dialect " ++ (driver ++ text " not found"))
        | some dialect ↦ ok (record { db = db; dialect = dialect })
      ]

-- `Engine.NewSession`, on the state of the engine's database.
unfoldable pub engine_session : {C D S : Type 0} → (C → S) → Engine C D → Session S
engine_session state e = new_session (state e.db)

-- `Engine.Close`: an error is logged with `Error` and its format, which ends the program.
unfoldable pub engine_close :
    {C D : Type 0} → (C → Outcome (Unit {0})) → Engine C D → Outcome (Unit {0})
engine_close close e = fatal (text "close session failed :%v") (close e.db)

-- The first dialect of a name in the map, else in the calls.
abbrev pub first_dialect : {D : Type 0} → Text → List (Text × D) → List (Text × D) → Option D
first_dialect name m calls = elim (lookup text_dec name m) [
  | some d ↦ some d
  | none ↦ lookup text_dec name calls
]

module _ {D : Type 0} where
  register_all-first :
      (name : Text) (calls m : List (Text × D))
      → get_dialect name (register_all calls m) ≡ first_dialect name m calls
  unfolding register_all register_dialect get_dialect lookup
  register_all-first name [] m = ground arith
  register_all-first name ((n, d) ∷ calls) m =
      register_all-first name calls (register_dialect n d m)
      ∙ ground (arith, lookup-insert text_dec n name d m)

module _ {C D : Type 0} (open_db : Text → Text → Outcome C) (ping : C → Outcome (Unit {0})) where
  -- If the database opens and answers, after any calls of `RegisterDialect` behind `init`, `NewEngine`
  -- returns an engine with the dialect that was first registered for the driver, SQLite's for its name;
  -- for a driver without a dialect the program ends.
  pub new_engine-first :
      (sqlite3 : D) (calls : List (Text × D)) (driver source : Text) (db : C)
      → open_db driver source ≡ ok db
      → ping db ≡ ok tt
      → new_engine open_db ping (register_all calls (init_dialects sqlite3)) driver source
        ≡ elim (lookup text_dec driver ((text "sqlite3", sqlite3) ∷ calls)) [
          | some d ↦ ok (record { db = db; dialect = d })
          | none ↦ exits (text "dialect " ++ (driver ++ text " not found"))
        ]
  unfolding new_engine init_dialects register_dialect lookup insert
  new_engine-first sqlite3 calls driver source db o p =
      ground (arith, o, p, register_all-first driver calls (init_dialects sqlite3))

  -- Whatever the database does, and whatever dialects there are, `NewEngine` never returns an error.
  pub new_engine-ne-err :
      (dialects : List (Text × D)) (driver source e : Text)
      → new_engine open_db ping dialects driver source ≢ err e
  unfolding new_engine
  new_engine-ne-err dialects driver source e q = ground (arith, q)
