-- ===== src/Logger.antt =====
-- SORM/logger/log.go: the two loggers of the package, their levels, and what `Error` does.
mod Tests
use golang_frame_practice.Common.Outcome.{Outcome, ok, err, panics, hangs, exits}
use golang_frame_practice.Common.{
  ℕ, Bool, true, false, ltb, List, [], ◌∷◌, ◌++◌, if◌then◌else◌, Text, text,
}

-- Whether a logger writes to the standard output or discards.
pub record Loggers : Type 0 where
  pub err_shown : Bool
  pub info_shown : Bool

abbrev pub info_level : ℕ
info_level = 1

abbrev pub error_level : ℕ
error_level = 2

abbrev pub disable : ℕ
disable = 3

-- The loggers before any call of `SetLevel`.
abbrev pub loggers : Loggers
loggers = record { err_shown = true; info_shown = true }

-- `SetLevel`; a negative level is like 0.
unfoldable pub set_level : ℕ → Loggers → Loggers
set_level level l =
    let shown : Loggers = record l { err_shown = true; info_shown = true } in
    let quiet : Loggers =
      if ltb info_level level then record shown { info_shown = false } else shown in
    if ltb error_level level then record quiet { err_shown = false } else quiet

-- `Info`: a line, if it is shown.
unfoldable pub info : Loggers → Text → List Text → List Text
info l message lines = if l.info_shown then lines ++ (text "[info]" ++ message) ∷ [] else lines

-- `Error` and `Errorf` are `log.Fatal` and `log.Fatalf`: after the line, the program ends.
unfoldable pub error : {A : Type 0} → Loggers → Text → List Text → List Text × Outcome A
error l message lines =
    (if l.err_shown then lines ++ (text "[error]" ++ message) ∷ [] else lines, exits message)

-- A result whose error is handed to `Error`, with words in front.
abbrev pub fatal {ℓ} : {A : Type ℓ} → Text → Outcome A → Outcome A
fatal words (ok a) = ok a
fatal words (err e) = exits (words ++ e)
fatal words (panics e) = panics e
fatal words hangs = hangs
fatal words (exits e) = exits e
