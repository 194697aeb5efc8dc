-- ===== src/Flight/Progress.antt =====
-- CCache/singleflight/singleflight.go: a goroutine that waits can return.
use mathlib.Core.Path.{subst}
use golang_frame_practice.Common.{ℕ, ◌≡◌, ◌≢◌, refl, sym, ap, ◌∙◌, inl, inr, some, Text, arith}
use golang_frame_practice.Flight.{
  Flight, Pc, idle, entering, running, stored, releasing, leaving, waiting, returned, dead, update,
  store, release,
}
use golang_frame_practice.Flight.Growth.{IsOver, Fits, leads}
use golang_frame_practice.Flight.Invariant.{Inv, update_ne, update_self}
use golang_frame_practice.Flight.Preservation.{Reach-Inv}
use golang_frame_practice.Flight.Moves.{
  Move, fn_returns, releases, wakes, System, Step, pick, init, Reach, here, next,
}

prepend : {V : Type 0} {s t u : System V} → Step s t → Reach t u → Reach s u
prepend st here = next here st
prepend st (next r q) = next (prepend st r) q

-- A step of one goroutine from where it stands.
step_at :
    {V : Type 0} (s : System V) (j : ℕ) (p : Pc V) (g : Flight V) (p' : Pc V)
    → s.pc j ≡ p
    → Move s.group p g p'
    → Step s (record { group = g; pc = update s.pc j p' })
step_at s j p g p' e m = pick j (subst (λ q. Move s.group q g p') (sym e) m)

module _ {V : Type 0} (i : ℕ) (k : Text) (c : ℕ) where
  -- From the state, steps lead to one where the goroutine has returned from the call.
  abbrev pub Returns : System V → Type 0
  Returns s = (t : System V) × Reach s t × (v : V) × (t.pc i ≡ returned k c v)

  over-Returns : (s : System V) → s.pc i ≡ waiting k c → IsOver s.group c → Returns s
  over-Returns s e q = (
    record { group = s.group; pc = update s.pc i (returned k c q.value) },
    next here (
        step_at s i (waiting k c) s.group (returned k c q.value) e
          (wakes k c q.value q.done q.val)),
    q.value,
    update_self s.pc i (returned k c q.value),
  )

  -- The goroutine `j` is not the one that waits, so that one still waits after its step.
  still :
      (s : System V) (j : ℕ) (p q : Pc V)
      → s.pc i ≡ waiting k c
      → s.pc j ≡ p
      → leads p ≡ some c
      → update s.pc j q i ≡ waiting k c
  still s j p q e f l = update_ne s.pc j q i (λ x. ground (arith, x, e, f, l)) ∙ e

  module _ (l : Text) where
    stored-Returns :
        (s : System V) (j : ℕ) (v : V)
        → s.pc i ≡ waiting k c
        → s.pc j ≡ stored l c
        → (s.group.cells c).val ≡ some v
        → Returns s
    unfolding release
    stored-Returns s j v e f w =
        let t : System V = record {
          group = release c s.group;
          pc = update s.pc j (releasing l c);
        } in
        let (u, r, x, done) =
          over-Returns t (still s j (stored l c) (releasing l c) e f refl)
            (record { value = v; val = ground (arith, w); done = ground arith }) in
        (u, prepend (step_at s j (stored l c) t.group (releasing l c) f (releases l c)) r, x, done)

    running-Returns :
        (s : System V) (j : ℕ) (v : V) → s.pc i ≡ waiting k c → s.pc j ≡ running l c → Returns s
    unfolding store
    running-Returns s j v e f =
        let t : System V = record { group = store c v s.group; pc = update s.pc j (stored l c) } in
        let (u, r, x, done) =
          stored-Returns t j v (still s j (running l c) (stored l c) e f refl)
            (update_self s.pc j (stored l c)) (ground arith) in
        (
          u,
          prepend (step_at s j (running l c) t.group (stored l c) f (fn_returns l c v)) r,
          x,
          done,
        )

  led-Returns :
      (s : System V) (j : ℕ) (v : V) (p : Pc V)
      → s.pc i ≡ waiting k c
      → s.pc j ≡ p
      → leads p ≡ some c
      → Fits s.group p
      → ((l : Text) → p ≢ dead l c)
      → Returns s
  led-Returns s j v (running l d) e f h q n =
      let same : d ≡ c = ground (arith, h) in running-Returns l s j v e (f ∙ ap (running l) same)
  led-Returns s j v (stored l d) e f h q n =
      let same : d ≡ c = ground (arith, h) in
      stored-Returns l s j q.2 e (f ∙ ap (stored l) same) (ground (arith, same, q.3))
  led-Returns s j v (releasing l d) e f h q n =
      over-Returns s e
        (record { value = q.2; val = ground (arith, h, q.3); done = ground (arith, h, q.4) })
  led-Returns s j v (dead l d) e f h q n =
      let same : d ≡ c = ground (arith, h) in absurd (n l (ap (dead l) same))
  led-Returns s j v idle e f h q n = cc
  led-Returns s j v (entering l) e f h q n = cc
  led-Returns s j v (leaving l d) e f h q n = cc
  led-Returns s j v (waiting l d) e f h q n = cc
  led-Returns s j v (returned l d w) e f h q n = cc

-- In every state that is reached in which no goroutine has panicked, and with a value that `fn` could
-- return: from there, steps lead to a state in which a goroutine that waits has returned.
pub waiting-Returns :
    {V : Type 0} {s : System V}
    → Reach init s
    → (i : ℕ) (k : Text) (c : ℕ) (v : V) → ((j : ℕ) (l : Text) (d : ℕ) → s.pc j ≢ dead l d)
    → s.pc i ≡ waiting k c
    → Returns i k c s
waiting-Returns {V} {s} r i k c v alive e =
    let inv : Inv s.group s.pc = Reach-Inv r in
    let q : Fits s.group (waiting k c) = subst (Fits s.group) e (inv.fits i) in
    elim q.1 [
      | inr over ↦ over-Returns i k c s e over
      | inl l ↦
          let (_, j, h) = inv.listed k c l in
          led-Returns i k c s j v (s.pc j) e refl h (inv.fits j) (λ l. alive j l c)
    ]
