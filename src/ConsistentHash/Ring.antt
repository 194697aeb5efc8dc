-- ===== src/ConsistentHash/Ring.antt =====
-- CCache/consistenthash/consistent_hash.go: `Get` finds the nearest point clockwise on the ring of
-- 2 ^ 32 hashes.
use native.Mathlib.Nat.{mod-eq_of_lt, mod-lt, mod_self}
use golang_frame_practice.Common.{
  ℕ, ◌+◌, ◌-◌, ◌^◌, ◌≤◌, ◌<◌, ◌≡◌, true, List, length, get_or, leb, dec_lt, if◌then◌else◌, arith,
}
use golang_frame_practice.ConsistentHash.{position, search}
use golang_frame_practice.ConsistentHash.Search.{IsSplit, search-IsSplit}
use golang_frame_practice.ConsistentHash.Sort.{has, IsSorted, has-get_or, has-index, get_or_mono}

-- How far clockwise the point `p` is from the hash `h`.
unfoldable pub distance : ℕ → ℕ → ℕ
distance h p = if leb h p then p - h else p + 2 ^ 32 - h

pub distance-injective :
    (h p q : ℕ) → h < 2 ^ 32 → p < 2 ^ 32 → q < 2 ^ 32 → distance h p ≡ distance h q → p ≡ q
unfolding distance
distance-injective h p q a b c e = ground arith

-- `p` is one of the points, and none is nearer.
pub record IsNearest (h : ℕ) (keys : List ℕ) (p : ℕ) : Type 0 where
  pub point : has p keys ≡ true
  pub least : (z : ℕ) → has z keys ≡ true → distance h p ≤ distance h z

module _ (keys : List ℕ) (h : ℕ) (sorted : IsSorted keys) (some_key : 0 < length keys)
    (small : (z : ℕ) → has z keys ≡ true → z < 2 ^ 32) (hash : h < 2 ^ 32) where
  first : ℕ
  first = search (length keys) (λ i. leb h (get_or keys i 0))

  first-IsSplit : IsSplit (λ i. leb h (get_or keys i 0)) 0 (length keys) first
  unfolding first
  first-IsSplit =
      search-IsSplit (length keys) (λ i. leb h (get_or keys i 0))
        (λ x y a b t. ground (arith, get_or_mono keys x y sorted a b))

  position-first : first < length keys → position keys h ≡ first
  unfolding position first
  position-first n = mod-eq_of_lt n

  position_wraps : first ≡ length keys → position keys h ≡ 0
  unfolding position first
  position_wraps e = rw e (mod_self (length keys))

  position-lt : position keys h < length keys
  unfolding position
  position-lt = mod-lt _ some_key

  position-least :
      (j : ℕ)
      → j < length keys
      → distance h (get_or keys (position keys h) 0) ≤ distance h (get_or keys j 0)
  unfolding distance
  position-least j n =
      let small_j : get_or keys j 0 < 2 ^ 32 = small (get_or keys j 0) (has-get_or keys j n) in
      elim (dec_lt first (length keys)) [
        | yes inside ↦
            let small_first : get_or keys first 0 < 2 ^ 32 =
              small (get_or keys first 0) (has-get_or keys first inside) in
            rw (position-first inside) (elim (dec_lt j first) [
              | yes below ↦ ground (
                arith,
                first-IsSplit.holds first (omega arith) inside,
                first-IsSplit.fails j (omega arith) below,
              )
              | no above ↦ ground (
                arith,
                first-IsSplit.holds first (omega arith) inside,
                get_or_mono keys first j sorted (omega arith) n,
              )
            ])
        | no outside ↦
            let e : first ≡ length keys = omega (arith, first-IsSplit.upper) in
            rw (position_wraps e) (
              ground (
                arith,
                first-IsSplit.fails 0 (omega arith) (omega arith),
                first-IsSplit.fails j (omega arith) (omega arith),
                get_or_mono keys 0 j sorted (omega arith) n,
              ))
      ]

  -- The position that `Get` computes is that of the nearest point.
  pub position-IsNearest : IsNearest h keys (get_or keys (position keys h) 0)
  position-IsNearest = record {
    point = has-get_or keys (position keys h) position-lt;
    least = λ z t. let (i, n, e) = has-index z keys t in rw (← e) (position-least i n);
  }
