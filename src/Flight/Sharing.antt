-- ===== src/Flight/Sharing.antt =====
-- CCache/singleflight/singleflight.go: one run of `fn` at a time for a key, shared by its callers.
use mathlib.Core.Path.{subst}
use golang_frame_practice.Common.{ℕ, ◌≡◌, sym, ap, ◌∙◌, some, Text, arith}
use golang_frame_practice.Flight.{running, returned}
use golang_frame_practice.Flight.Growth.{Fits, leads}
use golang_frame_practice.Flight.Invariant.{Inv}
use golang_frame_practice.Flight.Preservation.{Reach-Inv}
use golang_frame_practice.Flight.Moves.{System, init, Reach}

-- In every state that any interleaving of goroutines reaches, at most one of them runs `fn` for a key.
pub running_once :
    {V : Type 0} {s : System V}
    → Reach init s
    → (i j c d : ℕ) (k : Text) → s.pc i ≡ running k c
    → s.pc j ≡ running k d
    → i ≡ j
running_once {V} {s} r i j c d k a b =
    let inv : Inv s.group s.pc = Reach-Inv r in
    let p : Fits s.group (running k c) = subst (Fits s.group) a (inv.fits i) in
    let q : Fits s.group (running k d) = subst (Fits s.group) b (inv.fits j) in
    let same : c ≡ d = ground (arith, p.1, q.1) in
    inv.unique i j c (ap leads a) (ap leads b ∙ ap some (sym same))

-- In every state that is reached, two goroutines that have returned from the same call asked for the
-- same key and have the same value, which is the one in the call.
pub returned_same :
    {V : Type 0} {s : System V}
    → Reach init s
    → (i j c : ℕ) (k l : Text) (v w : V) → s.pc i ≡ returned k c v
    → s.pc j ≡ returned l c w
    → (k ≡ l) × (v ≡ w) × ((s.group.cells c).val ≡ some v)
returned_same {V} {s} r i j c k l v w a b =
    let inv : Inv s.group s.pc = Reach-Inv r in
    let p : Fits s.group (returned k c v) = subst (Fits s.group) a (inv.fits i) in
    let q : Fits s.group (returned l c w) = subst (Fits s.group) b (inv.fits j) in
    (sym p.0.key ∙ q.0.key, ground (arith, p.1, q.1), p.1)
