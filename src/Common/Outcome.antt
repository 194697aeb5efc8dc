-- ===== src/Common/Outcome.antt =====
-- How a Go call ends: with a result, with an error, with a panic, never, or with the end of the
-- program, which runs no deferred function.
use golang_frame_practice.Common.Tests.{Text}

pub data Outcome {ℓ} (A : Type ℓ) : Type ℓ where
  ok : A → Outcome A
  err : Text → Outcome A
  panics : Text → Outcome A
  hangs : Outcome A
  exits : Text → Outcome A

infixl 5 ◌>>=◌
abbrev pub ◌>>=◌ {ℓ κ} : {A : Type ℓ} {B : Type κ} → Outcome A → (A → Outcome B) → Outcome B
ok a >>= f = f a
err e >>= f = err e
panics e >>= f = panics e
hangs >>= f = hangs
exits e >>= f = exits e
