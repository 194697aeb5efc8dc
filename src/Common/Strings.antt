-- ===== src/Common/Strings.antt =====
-- The functions of Go's packages `strings` and `strconv` that the program calls, on bytes. `TrimSpace` knows the
-- ASCII white space only.
use mathlib.Core.Bool.{Bool, true, false, ◌||◌, ◌&&◌}
use mathlib.Core.List.{List, [], ◌∷◌, ◌++◌, reverse}
use mathlib.Core.Path.{◌≡◌, refl, ap, ◌∙◌}
use native.Mathlib.Omega.{arith}
use mathlib.Core.Logic.{inl, inr}
use Prim.Native.Nat.{ℕ, zero, suc, ◌+◌, ◌/◌, ◌%◌}
use golang_frame_practice.Common.Lists.{All}
use golang_frame_practice.Common.Tests.{Bool-cases, Text, ◌==◌, leb, ltb, if◌then◌else◌}

-- `strings.Join`
unfoldable pub join : Text → List Text → Text
join sep [] = []
join sep (s ∷ []) = s
join sep (s ∷ t ∷ l) = s ++ (sep ++ join sep (t ∷ l))

-- A first piece in front of the pieces.
unfoldable pub push_byte : ℕ → List Text → List Text
push_byte c [] = (c ∷ []) ∷ []
push_byte c (s ∷ l) = (c ∷ s) ∷ l

-- `strings.Split` at one byte: one more piece than there are separators.
unfoldable pub split : ℕ → Text → List Text
split sep [] = [] ∷ []
split sep (c ∷ s) = let rest = split sep s in if c == sep then [] ∷ rest else push_byte c rest

unfoldable pub is_space : ℕ → Bool
is_space c = c == b' ' || (leb 9 c && leb c 13)

unfoldable pub trim_left : Text → Text
unfolding is_space
trim_left [] = []
trim_left (c ∷ s) = let rest = trim_left s in if is_space c then rest else c ∷ s

-- `strings.TrimSpace` of a text in ASCII: Go also strips the white space of Unicode outside ASCII, such
-- as U+0085 and U+00A0.
unfoldable pub trim_space : Text → Text
unfolding trim_left
trim_space s = reverse (trim_left (reverse (trim_left s)))

-- A byte that does not stand in a text.
abbrev pub IsFree : ℕ → Text → Type 0
IsFree c s = All (λ x. (x == c) ≡ false) s

split_free : (sep : ℕ) (s : Text) → IsFree sep s → split sep s ≡ s ∷ []
unfolding split push_byte
split_free sep [] h = refl
split_free sep (c ∷ s) h = ground (arith, split_free sep s h.1)

split-append : (sep : ℕ) (s r : Text) → IsFree sep s → split sep (s ++ (sep ∷ r)) ≡ s ∷ split sep r
unfolding split push_byte
split-append sep [] r h = ground arith
split-append sep (c ∷ s) r h = ground (arith, split-append sep s r h.1)

-- Texts without the separator come back from a joined list, if there is one at least.
pub split-join :
    (sep : ℕ) (s : Text) (l : List Text)
    → IsFree sep s
    → All (IsFree sep) l
    → split sep (join (sep ∷ []) (s ∷ l)) ≡ s ∷ l
unfolding join
split-join sep s [] h a = split_free sep s h
split-join sep s (t ∷ l) h a =
    split-append sep s (join (sep ∷ []) (t ∷ l)) h ∙ ap (◌∷◌ s) (split-join sep t l a.0 a.1)

-- `strconv.Itoa` of a number that is not negative: each round gives one digit, the last one first.
unfoldable pub itoa_loop : ℕ → ℕ → Text → Text
itoa_loop zero n digits = digits
itoa_loop (suc fuel) n digits =
    let rest = itoa_loop fuel (n / 10) ((b'0' + n % 10) ∷ digits) in
    elim (ltb n 10) [ true ↦ (b'0' + n) ∷ digits | false ↦ rest ]

unfoldable pub itoa : ℕ → Text
unfolding itoa_loop
itoa n = itoa_loop (n + 1) n []

-- `strings.Split` gives one piece at least.
pub split_first : (sep : ℕ) (s : Text) → (p : Text) × (l : List Text) × (split sep s ≡ p ∷ l)
unfolding split push_byte
split_first sep [] = ([], [], refl)
split_first sep (c ∷ s) =
    let (p, l, e) = split_first sep s in
    elim (Bool-cases (c == sep)) [
      | inl h ↦ ([], split sep s, ground (arith, h))
      | inr h ↦ (c ∷ p, l, ground (arith, h, e))
    ]
