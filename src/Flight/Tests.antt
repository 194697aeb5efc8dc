-- ===== src/Flight/Tests.antt =====
-- CCache/singleflight/singleflight.go: two goroutines ask for one key.
use golang_frame_practice.Common.Assoc.{insert, delete}
use golang_frame_practice.Common.{
  ℕ, ◌≡◌, ◌≢◌, refl, Text, text, text_dec, ℕ_discrete, lookup, arith, zero, suc,
}
use golang_frame_practice.Flight.{
  Flight, Pc, entering, stored, releasing, leaving, waiting, returned, dead, update, enter, store,
  release, remove,
}
use golang_frame_practice.Flight.Moves.{
  calls_do, enters, fn_returns, fn_panics, releases, removes, leaves, wakes, System, pick, init,
  Reach, here, next,
}
use golang_frame_practice.Flight.Sharing.{running_once}
use golang_frame_practice.Flight.Progress.{Returns, waiting-Returns}
use golang_frame_practice.Flight.Panics.{waiting_forever}

abbrev tom : Text
tom = text "Tom"

-- The state after a step of a goroutine.
abbrev then : System ℕ → ℕ → Flight ℕ → Pc ℕ → System ℕ
then s i g p = record { group = g; pc = update s.pc i p }

-- Goroutine 0 makes the call, and goroutine 1 joins it.
abbrev asked : System ℕ
asked =
    let s : System ℕ = then init 0 init.group (entering tom) in
    let t = then s 0 (enter s.group tom).0 (enter s.group tom).1 in
    let u = then t 1 t.group (entering tom) in then u 1 (enter u.group tom).0 (enter u.group tom).1

asked-Reach : Reach init asked
unfolding enter lookup insert text_dec ℕ_discrete
asked-Reach =
    next
      (next (next (next here (pick 0 (calls_do tom))) (pick 0 (enters tom)))
        (pick 1 (calls_do tom)))
      (pick 1 (enters tom))

-- The definitions that a run computes with.
program : Unit {0}
unfolding enter store release remove lookup insert delete text_dec ℕ_discrete
program = tt

running_once_example : ◌≡◌ {A = ℕ} 0 0
unfolding program
running_once_example = running_once asked-Reach 0 0 0 0 tom refl refl

asked-alive : (j : ℕ) (l : Text) (d : ℕ) → asked.pc j ≢ dead l d
unfolding program
asked-alive zero l d e = cc
asked-alive (suc zero) l d e = cc
asked-alive (suc (suc j)) l d e = ground (arith, e)

waiting-Returns_example : Returns 1 tom 0 asked
unfolding program
waiting-Returns_example = waiting-Returns asked-Reach 1 tom 0 5 asked-alive refl

-- The function of goroutine 0 panics, and goroutine 2 comes along.
abbrev broken : System ℕ
broken = then asked 0 asked.group (dead tom 0)

broken-Reach : Reach init broken
unfolding program
broken-Reach = next asked-Reach (pick 0 (fn_panics tom 0))

waiting_forever_example : (then broken 2 broken.group (entering tom)).pc 1 ≡ waiting tom 0
unfolding program
waiting_forever_example =
    waiting_forever broken-Reach 1 0 0 tom refl refl (next here (pick 2 (calls_do tom)))

-- Both return with the value of the one run.
abbrev answered : System ℕ
answered =
    let s = then asked 0 (store 0 5 asked.group) (stored tom 0) in
    let t = then s 0 (release 0 s.group) (releasing tom 0) in
    let u = then t 0 (remove tom t.group) (leaving tom 0) in
    let v = then u 0 u.group (returned tom 0 5) in then v 1 v.group (returned tom 0 5)

answered-Reach : Reach init answered
unfolding program
answered-Reach =
    next
      (next
        (next (next (next asked-Reach (pick 0 (fn_returns tom 0 5))) (pick 0 (releases tom 0)))
          (pick 0 (removes tom 0)))
        (pick 0 (leaves tom 0 5 refl)))
      (pick 1 (wakes tom 0 5 refl refl))
