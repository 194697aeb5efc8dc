-- ===== src/ConsistentHash/Sort.antt =====
-- CCache/consistenthash/consistent_hash.go: sorted points, and which points there are.
use mathlib.Core.Bool.{false≢true}
use golang_frame_practice.Common.{
  ℕ, zero, suc, ◌≤◌, ◌<◌, ◌≡◌, refl, Bool, true, false, ◌||◌, ◌==◌, List, [], ◌∷◌, ◌++◌, length,
  get_or, arith, inl, inr, Bool-cases, All,
}
use golang_frame_practice.ConsistentHash.{sort_insert, sort_ints}

abbrev pub has : ℕ → List ℕ → Bool
has x [] = false
has x (y ∷ l) = x == y || has x l

abbrev pub IsSorted : List ℕ → Type 0
IsSorted [] = Unit
IsSorted (x ∷ l) = All (λ y. x ≤ y) l × IsSorted l

All-le : (x y : ℕ) (l : List ℕ) → x ≤ y → All (λ z. y ≤ z) l → All (λ z. x ≤ z) l
All-le x y [] h a = tt
All-le x y (z ∷ l) h a = (omega arith, All-le x y l h a.1)

All-insert :
    (b x : ℕ) (l : List ℕ) → b ≤ x → All (λ z. b ≤ z) l → All (λ z. b ≤ z) (sort_insert x l)
unfolding sort_insert
All-insert b x [] h a = (h, tt)
All-insert b x (y ∷ l) h a = ground (arith, All-insert b x l h a.1)

sort_insert-IsSorted : (x : ℕ) (l : List ℕ) → IsSorted l → IsSorted (sort_insert x l)
unfolding sort_insert
sort_insert-IsSorted x [] s = (tt, tt)
sort_insert-IsSorted x (y ∷ l) s = ground (
  arith,
  λ (p : x ≤ y). All-le x y l p s.0,
  λ (p : y ≤ x). All-insert y x l p s.0,
  sort_insert-IsSorted x l s.1,
)

pub sort_ints-IsSorted : (l : List ℕ) → IsSorted (sort_ints l)
unfolding sort_ints
sort_ints-IsSorted [] = tt
sort_ints-IsSorted (x ∷ l) = sort_insert-IsSorted x (sort_ints l) (sort_ints-IsSorted l)

has-sort_insert : (z x : ℕ) (l : List ℕ) → has z (sort_insert x l) ≡ (z == x || has z l)
unfolding sort_insert
has-sort_insert z x [] = refl
has-sort_insert z x (y ∷ l) = ground (arith, has-sort_insert z x l)

pub has-sort_ints : (z : ℕ) (l : List ℕ) → has z (sort_ints l) ≡ has z l
unfolding sort_ints
has-sort_ints z [] = refl
has-sort_ints z (x ∷ l) = ground (arith, has-sort_insert z x (sort_ints l), has-sort_ints z l)

pub has-append : (z : ℕ) (l m : List ℕ) → has z (l ++ m) ≡ (has z l || has z m)
has-append z [] m = refl
has-append z (x ∷ l) m = ground (arith, has-append z l m)

-- What stands at an index is a point, and every point stands at an index.
pub has-get_or : (l : List ℕ) (i : ℕ) → i < length l → has (get_or l i 0) l ≡ true
has-get_or [] i h = elim h [ ]
has-get_or (x ∷ l) zero h = ground arith
has-get_or (x ∷ l) (suc i) h = ground (arith, has-get_or l i (omega arith))

pub has-index :
    (z : ℕ) (l : List ℕ) → has z l ≡ true → (i : ℕ) × (i < length l) × (get_or l i 0 ≡ z)
has-index z [] h = absurd (false≢true h)
has-index z (x ∷ l) h = elim (Bool-cases (z == x)) [
  | inl here ↦ (0, omega arith, ground arith)
  | inr there ↦ let (i, lt, e) = has-index z l (ground arith) in (suc i, omega arith, e)
]

All-get_or : (x : ℕ) (l : List ℕ) (i : ℕ) → All (λ y. x ≤ y) l → i < length l → x ≤ get_or l i 0
All-get_or x [] i a h = elim h [ ]
All-get_or x (y ∷ l) zero a h = a.0
All-get_or x (y ∷ l) (suc i) a h = All-get_or x l i a.1 (omega arith)

pub get_or_mono :
    (l : List ℕ) (i j : ℕ) → IsSorted l → i ≤ j → j < length l → get_or l i 0 ≤ get_or l j 0
get_or_mono [] i j s h n = elim n [ ]
get_or_mono (x ∷ l) zero zero s h n = omega arith
get_or_mono (x ∷ l) zero (suc j) s h n = All-get_or x l j s.0 (omega arith)
get_or_mono (x ∷ l) (suc i) zero s h n = absurd (omega arith)
get_or_mono (x ∷ l) (suc i) (suc j) s h n = get_or_mono l i j s.1 (omega arith) (omega arith)
