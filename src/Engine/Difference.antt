-- ===== src/Engine/Difference.antt =====
-- SORM/sorm.go: `difference` takes the elements of one list out of another.
use mathlib.Core.Path.{subst}
use golang_frame_practice.Common.Assoc.{insert, lookup-insert}
use golang_frame_practice.Common.{
  ◌≡◌, refl, sym, Bool, true, false, not, ◌&&◌, ◌||◌, none, some, List, [], ◌∷◌, lookup, Text,
  text_dec, arith, All, inl, inr, Option-cases,
}
use golang_frame_practice.Engine.{marked, unmarked, difference}
use golang_frame_practice.Registry.Alive.{lists}

-- Whether a map has a key.
abbrev marks_key : Text → List (Text × Bool) → Bool
marks_key v m = elim (lookup text_dec v m) [ none ↦ false | some _ ↦ true ]

marked-lists :
    (v : Text) (b : List Text) (m : List (Text × Bool))
    → marks_key v (marked b m) ≡ (lists v b || marks_key v m)
unfolding marked lists
marked-lists v [] m = refl
marked-lists v (w ∷ b) m =
    ground (arith, marked-lists v b (insert text_dec w true m), lookup-insert text_dec w v true m)

unmarked-lists :
    (v : Text) (m : List (Text × Bool)) (a : List Text)
    → lists v (unmarked m a) ≡ (lists v a && not (marks_key v m))
unfolding unmarked lists
unmarked-lists v m [] = refl
unmarked-lists v m (w ∷ a) = elim (text_dec v w) [
  | yes p ↦ ground (arith, p, unmarked-lists v m a)
  | no p ↦ ground (arith, p, unmarked-lists v m a)
]

-- `difference a b` has the elements of `a` that are not in `b`, and no others.
pub lists-difference :
    (v : Text) (a b : List Text) → lists v (difference a b) ≡ (lists v a && not (lists v b))
unfolding difference lookup
lists-difference v a b = ground (arith, unmarked-lists v (marked b []) a, marked-lists v b [])

-- What holds of the members of the first list.
All-unmarked :
    (P : Text → Type 0) (m : List (Text × Bool)) (a : List Text) → All P a → All P (unmarked m a)
unfolding unmarked
All-unmarked P m [] h = tt
All-unmarked P m (v ∷ a) h = elim (Option-cases (lookup text_dec v m)) [
  | inl e ↦
      let q : unmarked m (v ∷ a) ≡ v ∷ unmarked m a = ground (arith, e) in
      subst (All P) (sym q) (h.0, All-unmarked P m a h.1)
  | inr (_, e) ↦
      let q : unmarked m (v ∷ a) ≡ unmarked m a = ground (arith, e) in
      subst (All P) (sym q) (All-unmarked P m a h.1)
]

pub All-difference : (P : Text → Type 0) (a b : List Text) → All P a → All P (difference a b)
unfolding difference
All-difference P a b h = All-unmarked P (marked b []) a h
