-- ===== src/ConsistentHash/Tests.antt =====
-- Tests of the ring on small inputs, and its theorems at them. The hash reads a number, as in
-- consistent_hash_test.go.
use golang_frame_practice.Common.Assoc.{insert}
use golang_frame_practice.Common.Strings.{itoa}
use golang_frame_practice.Common.{
  ℕ, ◌≡◌, ◌≢◌, refl, ◌+◌, ◌-◌, ◌*◌, ◌%◌, ◌^◌, ◌<◌, ◌⊎◌, some, List, [], ◌∷◌, lookup, length, Text,
  text, arith, ℕ_discrete, dec_le,
}
use golang_frame_practice.ConsistentHash.{
  Hash, Map, new_map, add_replicas, add_all, sort_ints, add, search, position, node_at, get,
}
use golang_frame_practice.ConsistentHash.Moves.{get-add_node}
use golang_frame_practice.ConsistentHash.Owner.{
  IsRing, IsPlaced, Owned, get-Owned, add-IsRing, new_map-IsPlaced,
}

program : Unit {0}
unfolding new_map add_replicas add_all sort_ints add search position node_at get insert itoa lookup
    ℕ_discrete dec_le
program = tt

-- `strconv.Atoi` of a text of digits.
abbrev number_from : ℕ → Text → ℕ
number_from n [] = n
number_from n (c ∷ s) = number_from (n * 10 + (c - b'0')) s

abbrev atoi : Hash
atoi s = number_from 0 s % 2 ^ 32

atoi-lt : (x : Text) → atoi x < 2 ^ 32
atoi-lt x = omega arith

abbrev nodes : List Text
nodes = text "6" ∷ text "4" ∷ text "2" ∷ []

ring : Map
unfolding program
ring = add (new_map atoi 3 (some atoi)) nodes

-- The points of consistent_hash_test.go, and the owners that it expects.
ring_points : ring.keys ≡ 2 ∷ 4 ∷ 6 ∷ 12 ∷ 14 ∷ 16 ∷ 22 ∷ 24 ∷ 26 ∷ []
unfolding program ring
ring_points = refl

ring_owners :
    (get ring (text "2") ≡ text "2")
    × (get ring (text "11") ≡ text "2")
    × (get ring (text "23") ≡ text "4")
    × (get ring (text "27") ≡ text "2")
    × (get (add ring (text "8" ∷ [])) (text "27") ≡ text "8")
unfolding program ring
ring_owners = (refl, refl, refl, refl, refl)

abbrev IsDigit : Text → Type 0
IsDigit s = length s ≡ 1

ring-IsPlaced : IsPlaced IsDigit (new_map atoi 3 (some atoi))
ring-IsPlaced = new_map-IsPlaced IsDigit 3 atoi atoi atoi-lt

nodes-IsRing : IsRing IsDigit (add (new_map atoi 3 (some atoi)) nodes)
nodes-IsRing =
    add-IsRing IsDigit (new_map atoi 3 (some atoi)) nodes (refl, (refl, (refl, tt))) ring-IsPlaced

ring_points_ne : (add (new_map atoi 3 (some atoi)) nodes).keys ≢ []
unfolding program
ring_points_ne = ground arith

get-Owned_example :
    Owned IsDigit
      (add (new_map atoi 3 (some atoi)) nodes)
      (text "11")
      (get (add (new_map atoi 3 (some atoi)) nodes) (text "11"))
get-Owned_example =
    get-Owned IsDigit (add (new_map atoi 3 (some atoi)) nodes) (text "11") nodes-IsRing
      ring_points_ne

get-add_node_example :
    (get (add (add (new_map atoi 3 (some atoi)) nodes) (text "8" ∷ [])) (text "27")
      ≡ get (add (new_map atoi 3 (some atoi)) nodes) (text "27"))
    ⊎ (get (add (add (new_map atoi 3 (some atoi)) nodes) (text "8" ∷ [])) (text "27") ≡ text "8")
get-add_node_example =
    get-add_node IsDigit (add (new_map atoi 3 (some atoi)) nodes) (text "8") (text "27")
      nodes-IsRing ring_points_ne refl
