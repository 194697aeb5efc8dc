-- ===== src/Flight.antt =====
-- CCache/singleflight/singleflight.go: `Do` as any number of goroutines run it. A `*call` is a number
-- into the cells; the sections under `mu` are single steps, and so is each statement between them.
pub mod Moves
pub mod Growth
pub mod Invariant
pub mod Preservation
pub mod Sharing
pub mod Progress
pub mod Panics
mod Tests
use golang_frame_practice.Common.Assoc.{insert, delete}
use golang_frame_practice.Common.{
  ℕ, ◌+◌, ◌≡◌, Bool, true, false, Option, none, some, List, [], ◌∷◌, lookup, ite, ℕ_discrete, Text,
  text_dec,
}

-- The struct `call`: `done` says that the counter of `wg` is back at 0, and `val` is what `fn`
-- returned, value and error. `key` is the key that the call was made for.
pub record Cell (V : Type 0) : Type 0 where
  pub key : Text
  pub val : Option V
  pub done : Bool

-- The struct `Group`, with the calls that were ever made; `next` is a pointer that none has had.
pub record Flight (V : Type 0) : Type 0 where
  pub calls : List (Text × ℕ)
  pub cells : ℕ → Cell V
  pub next : ℕ

-- Where a goroutine stands in `Do`: before it, at the first lock, behind `fn`, behind `wg.Done`,
-- behind the delete, in `wg.Wait`, and after the return. `dead` is one whose `fn` has panicked.
pub data Pc (V : Type 0) : Type 0 where
  idle : Pc V
  entering : Text → Pc V
  running : Text → ℕ → Pc V
  stored : Text → ℕ → Pc V
  releasing : Text → ℕ → Pc V
  leaving : Text → ℕ → Pc V
  waiting : Text → ℕ → Pc V
  returned : Text → ℕ → V → Pc V
  dead : Text → ℕ → Pc V

abbrev pub update {ℓ} : {A : Type ℓ} → (ℕ → A) → ℕ → A → ℕ → A
update f i a j = ite (ℕ_discrete i j) a (f j)

module _ {V : Type 0} where
  -- The first section under the lock: an entry of the key is waited for, else a call is made.
  unfoldable pub enter : Flight V → Text → Flight V × Pc V
  enter g key = elim (lookup text_dec key g.calls) [
    | some c ↦ (g, waiting key c)
    | none ↦ (
      record {
        calls = insert text_dec key g.next g.calls;
        cells = update g.cells g.next (record { key = key; val = none; done = false });
        next = g.next + 1;
      },
      running key g.next,
    )
  ]

  -- `c.val, c.err = fn()`
  unfoldable pub store : ℕ → V → Flight V → Flight V
  store c v g = record g { cells = update g.cells c (record (g.cells c) { val = some v }) }

  -- `c.wg.Done()`
  unfoldable pub release : ℕ → Flight V → Flight V
  release c g = record g { cells = update g.cells c (record (g.cells c) { done = true }) }

  -- The second section under the lock.
  unfoldable pub remove : Text → Flight V → Flight V
  remove key g = record g { calls = delete text_dec key g.calls }
