-- ===== src/ConsistentHash.antt =====
-- CCache/consistenthash/consistent_hash.go: the ring of virtual nodes. A hash is a number below
-- 2 ^ 32; `int(hashed)` keeps it. `sort.Ints` and `sort.Search` are modelled as the standard library
-- documents them: a sort in increasing order, and a binary search for the first index that passes.
pub mod Search
pub mod Sort
pub mod Ring
pub mod Owner
pub mod Moves
mod Tests
use golang_frame_practice.Common.Assoc.{insert}
use golang_frame_practice.Common.Strings.{itoa}
use golang_frame_practice.Common.{
  ℕ, zero, suc, ◌+◌, ◌/◌, ◌%◌, Bool, true, false, Option, none, some, List, [], ◌∷◌, ◌++◌, lookup,
  ite, dec_le, ℕ_discrete, length, get_or, ltb, leb, Text, text, text_dec,
}

abbrev pub Hash : Type 0
Hash = Text → ℕ

pub record Map : Type 0 where
  pub hash : Hash
  pub keys : List ℕ
  pub hash_map : List (ℕ × Text)
  pub replicas : ℕ

-- `NewMap`; `checksum` is `crc32.ChecksumIEEE`.
unfoldable pub new_map : Hash → ℕ → Option Hash → Map
new_map checksum replicas hash = record {
  hash = elim hash [ none ↦ checksum | some h ↦ h ];
  keys = [];
  hash_map = [];
  replicas = replicas;
}

-- The inner loop of `Add`, with the rounds left and the counter `i`.
unfoldable pub add_replicas : ℕ → ℕ → Text → Map → Map
add_replicas zero i key m = m
add_replicas (suc rounds) i key m =
    let hashed : ℕ = m.hash (itoa i ++ key) in
    add_replicas rounds (i + 1) key (record m {
      keys = m.keys ++ hashed ∷ [];
      hash_map = insert ℕ_discrete hashed key m.hash_map;
    })

-- The outer loop of `Add`.
unfoldable pub add_all : List Text → Map → Map
add_all [] m = m
add_all (key ∷ keys) m = add_all keys (add_replicas m.replicas 0 key m)

-- `sort.Ints`
unfoldable pub sort_insert : ℕ → List ℕ → List ℕ
sort_insert x [] = x ∷ []
sort_insert x (y ∷ l) = ite (dec_le x y) (x ∷ y ∷ l) (y ∷ sort_insert x l)

unfoldable pub sort_ints : List ℕ → List ℕ
unfolding sort_insert
sort_ints [] = []
sort_ints (x ∷ l) = sort_insert x (sort_ints l)

unfoldable pub add : Map → List Text → Map
unfolding add_all
add m keys = let m' = add_all keys m in record m' { keys = sort_ints m'.keys }

-- `sort.Search`: the loop between `i` and `j`, halving.
unfoldable pub search_loop : ℕ → (ℕ → Bool) → ℕ → ℕ → ℕ
search_loop zero f i j = i
search_loop (suc fuel) f i j =
    let h : ℕ = (i + j) / 2 in
    let upper = search_loop fuel f (h + 1) j in
    let lower = search_loop fuel f i h in
    elim (ltb i j) [ true ↦ elim (f h) [ true ↦ lower | false ↦ upper ] | false ↦ i ]

unfoldable pub search : ℕ → (ℕ → Bool) → ℕ
unfolding search_loop
search n f = search_loop (n + 1) f 0 n

-- The index into `keys` that `Get` ends with.
unfoldable pub position : List ℕ → ℕ → ℕ
position keys hashed = search (length keys) (λ i. leb hashed (get_or keys i 0)) % length keys

-- A read of a missing key of the Go map gives the empty string.
unfoldable pub node_at : ℕ → List (ℕ × Text) → Text
node_at h m = elim (lookup ℕ_discrete h m) [ none ↦ [] | some node ↦ node ]

unfoldable pub get : Map → Text → Text
get m key = elim m.keys [
  | [] ↦ []
  | x ∷ l ↦ node_at (get_or (x ∷ l) (position (x ∷ l) (m.hash key)) 0) m.hash_map
]
