-- ===== src/ConsistentHash/Search.antt =====
-- CCache/consistenthash/consistent_hash.go: the binary search finds where a test begins to hold.
use mathlib.Core.Bool.{false≢true}
use golang_frame_practice.Common.{
  ℕ, zero, suc, ◌+◌, ◌-◌, ◌/◌, ◌≤◌, ◌<◌, ◌≡◌, Bool, true, false, ltb, ltb→lt, dec_lt, sym, ◌∙◌,
  arith, inl, inr, Bool-cases,
}
use golang_frame_practice.ConsistentHash.{search_loop, search}

-- `r` splits the indices from `i` to `j`: the test fails below it and holds from it on.
pub record IsSplit (f : ℕ → Bool) (i j r : ℕ) : Type 0 where
  pub lower : i ≤ r
  pub upper : r ≤ j
  pub fails : (x : ℕ) → i ≤ x → x < r → f x ≡ false
  pub holds : (x : ℕ) → r ≤ x → x < j → f x ≡ true

-- The test does not stop holding.
abbrev pub IsMonotone : (ℕ → Bool) → ℕ → Type 0
IsMonotone f n = (x y : ℕ) → x ≤ y → y < n → f x ≡ true → f y ≡ true

IsSplit-search_loop :
    (fuel : ℕ) (f : ℕ → Bool) (i j : ℕ)
    → IsMonotone f j
    → i ≤ j
    → j - i < fuel
    → IsSplit f i j (search_loop fuel f i j)
unfolding search_loop
IsSplit-search_loop zero f i j m h n = absurd (omega arith)
IsSplit-search_loop (suc fuel) f i j m h n = elim (Bool-cases (ltb i j)) [
  | inr done ↦
      rw (done, search_loop)
        (record {
          lower = omega arith;
          upper = h;
          fails = λ x a b. absurd (omega arith);
          holds = λ x a b. absurd (ground arith);
        })
  | inl more ↦ elim (Bool-cases (f ((i + j) / 2))) [
    | inl yes_at ↦
        let r =
          IsSplit-search_loop fuel f i ((i + j) / 2) (λ x y a b. m x y a (ground arith))
            (ground arith) (ground arith) in
        rw (more, yes_at, search_loop)
          (record {
            lower = r.lower;
            upper = omega (arith, r.upper, ltb→lt i j more);
            fails = r.fails;
            holds = λ x a b. elim (dec_lt x ((i + j) / 2)) [
              | yes left ↦ r.holds x a left
              | no right ↦ m ((i + j) / 2) x (omega arith) b yes_at
            ];
          })
    | inr no_at ↦
        let r = IsSplit-search_loop fuel f ((i + j) / 2 + 1) j m (ground arith) (ground arith) in
        rw (more, no_at, search_loop)
          (record {
            lower = omega (arith, r.lower);
            upper = r.upper;
            fails = λ x a b. elim (dec_lt ((i + j) / 2) x) [
              | yes right ↦ r.fails x (omega arith) b
              | no left ↦ elim (Bool-cases (f x)) [
                | inl t ↦ absurd (
                    false≢true (
                      sym no_at
                      ∙ m x ((i + j) / 2) (omega arith) (omega (arith, ltb→lt i j more)) t))
                | inr t ↦ t
              ]
            ];
            holds = r.holds;
          })
  ]
]

-- For a test that does not stop holding below `n`, the binary search returns the first index below `n`
-- at which it holds, or `n`.
pub search-IsSplit : (n : ℕ) (f : ℕ → Bool) → IsMonotone f n → IsSplit f 0 n (search n f)
unfolding search
search-IsSplit n f m = IsSplit-search_loop (n + 1) f 0 n m (omega arith) (omega arith)
