-- ===== src/Flight/Moves.antt =====
-- CCache/singleflight/singleflight.go: the steps of the goroutines, in any order.
use golang_frame_practice.Common.{ℕ, ◌≡◌, true, false, none, some, [], Text}
use golang_frame_practice.Flight.{
  Flight, Pc, idle, entering, running, stored, releasing, leaving, waiting, returned, dead, update,
  enter, store, release, remove,
}

-- One step of a goroutine, and what it does to the group. What `fn` returns is up to the caller.
pub data Move {V : Type 0} (g : Flight V) : Pc V → Flight V → Pc V → Type 0 where
  calls_do : (k : Text) → Move g idle g (entering k)
  enters : (k : Text) → Move g (entering k) (enter g k).0 (enter g k).1
  fn_returns : (k : Text) (c : ℕ) (v : V) → Move g (running k c) (store c v g) (stored k c)
  fn_panics : (k : Text) (c : ℕ) → Move g (running k c) g (dead k c)
  releases : (k : Text) (c : ℕ) → Move g (stored k c) (release c g) (releasing k c)
  removes : (k : Text) (c : ℕ) → Move g (releasing k c) (remove k g) (leaving k c)
  leaves :
      (k : Text) (c : ℕ) (v : V)
      → (g.cells c).val ≡ some v
      → Move g (leaving k c) g (returned k c v)
  wakes :
      (k : Text) (c : ℕ) (v : V)
      → (g.cells c).done ≡ true
      → (g.cells c).val ≡ some v
      → Move g (waiting k c) g (returned k c v)

-- The goroutines over one group.
pub record System (V : Type 0) : Type 0 where
  pub group : Flight V
  pub pc : ℕ → Pc V

pub data Step {V : Type 0} (s : System V) : System V → Type 0 where
  pick :
      (i : ℕ) {g : Flight V} {p : Pc V}
      → Move s.group (s.pc i) g p
      → Step s (record { group = g; pc = update s.pc i p })

-- An empty group, and no goroutine in it.
abbrev pub init : {V : Type 0} → System V
init = record {
  group = record {
    calls = [];
    cells = λ _. record { key = []; val = none; done = false };
    next = 0;
  };
  pc = λ _. idle;
}

-- The states that follow from a state.
pub data Reach {V : Type 0} (s : System V) : System V → Type 0 where
  here : Reach s s
  next : {t u : System V} → Reach s t → Step t u → Reach s u
