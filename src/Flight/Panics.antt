-- ===== src/Flight/Panics.antt =====
-- CCache/singleflight/singleflight.go: a `fn` that panics blocks its key for ever.
use mathlib.Core.Path.{subst}
use golang_frame_practice.Common.{ℕ, ◌≡◌, ◌≢◌, ap, ◌∙◌, true, Text, arith}
use golang_frame_practice.Flight.{Flight, Pc, dead, waiting}
use golang_frame_practice.Flight.Growth.{Fits}
use golang_frame_practice.Flight.Invariant.{Inv, update_ne}
use golang_frame_practice.Flight.Preservation.{Reach-Inv}
use golang_frame_practice.Flight.Moves.{
  Move, calls_do, enters, fn_returns, fn_panics, releases, removes, leaves, wakes, System, Step,
  pick, init, Reach, here, next,
}

append : {V : Type 0} {s t u : System V} → Reach s t → Reach t u → Reach s u
append r here = r
append r (next q st) = next (append r q) st

module _ {V : Type 0} (k : Text) (c : ℕ) where
  dead_stays : (g h : Flight V) (p p' : Pc V) → Move g p h p' → p ≢ dead k c
  dead_stays g h p p' (calls_do l) e = cc
  dead_stays g h p p' (enters l) e = cc
  dead_stays g h p p' (fn_returns l d v) e = cc
  dead_stays g h p p' (fn_panics l d) e = cc
  dead_stays g h p p' (releases l d) e = cc
  dead_stays g h p p' (removes l d) e = cc
  dead_stays g h p p' (leaves l d v q) e = cc
  dead_stays g h p p' (wakes l d v o q) e = cc

  waiting_moves :
      (g h : Flight V) (p p' : Pc V) → Move g p h p' → p ≡ waiting k c → (g.cells c).done ≡ true
  waiting_moves g h p p' (calls_do l) e = cc
  waiting_moves g h p p' (enters l) e = cc
  waiting_moves g h p p' (fn_returns l d v) e = cc
  waiting_moves g h p p' (fn_panics l d) e = cc
  waiting_moves g h p p' (releases l d) e = cc
  waiting_moves g h p p' (removes l d) e = cc
  waiting_moves g h p p' (leaves l d v q) e = cc
  waiting_moves g h p p' (wakes l d v o q) e = ground (arith, e, o)

  -- One step leaves both where they are.
  Step-blocked :
      (i j : ℕ) {s t : System V}
      → Inv s.group s.pc
      → (s.pc j ≡ dead k c) × (s.pc i ≡ waiting k c)
      → Step s t
      → (t.pc j ≡ dead k c) × (t.pc i ≡ waiting k c)
  Step-blocked i j {s} inv (e, f) (pick a {g} {p} m) =
      let q : Fits s.group (dead k c) = subst (Fits s.group) e (inv.fits j) in
      let off : a ≢ j = λ x. dead_stays s.group g (s.pc a) p m (ap s.pc x ∙ e) in
      let shut : a ≢ i =
        λ x. ground (arith, q.2, waiting_moves s.group g (s.pc a) p m (ap s.pc x ∙ f)) in
      (update_ne s.pc a p j off ∙ e, update_ne s.pc a p i shut ∙ f)

-- If in some reachable state one goroutine has died in `fn` and another waits for the same call, then
-- it still waits in every state that follows.
pub waiting_forever :
    {V : Type 0} {s t : System V}
    → Reach init s
    → (i j c : ℕ) (k : Text) → s.pc j ≡ dead k c
    → s.pc i ≡ waiting k c
    → Reach s t
    → t.pc i ≡ waiting k c
waiting_forever {V} {s} {t} r i j c k e f q = (blocked q).1
  where
    blocked : {u : System V} → Reach s u → (u.pc j ≡ dead k c) × (u.pc i ≡ waiting k c)
    blocked here = (e, f)
    blocked (next p st) = Step-blocked k c i j (Reach-Inv (append r p)) (blocked p) st
