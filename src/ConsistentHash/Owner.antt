-- ===== src/ConsistentHash/Owner.antt =====
-- CCache/consistenthash/consistent_hash.go: which node owns a key, and how that changes when a node
-- is added.
use mathlib.Core.Bool.{false≢true}
use golang_frame_practice.Common.Assoc.{insert, lookup-insert_self, lookup-insert_ne}
use golang_frame_practice.Common.Strings.{itoa}
use golang_frame_practice.Common.{
  ℕ, zero, suc, ◌+◌, ◌^◌, ◌<◌, ◌≡◌, refl, sym, ap, ◌∙◌, ◌≢◌, inl, inr, true, ◌||◌, some, List, [],
  ◌∷◌, ◌++◌, lookup, length, get_or, if◌then◌else◌, arith, ℕ_discrete, Text, All, Bool-cases,
}
use golang_frame_practice.ConsistentHash.{
  Hash, Map, new_map, add_replicas, add_all, add, position, node_at, get,
}
use golang_frame_practice.ConsistentHash.Ring.{IsNearest, position-IsNearest}
use golang_frame_practice.ConsistentHash.Sort.{
  has, IsSorted, sort_ints-IsSorted, has-sort_ints, has-append,
}

-- The points of one node, in the order in which `Add` makes them.
unfoldable pub points : Hash → ℕ → ℕ → Text → List ℕ
points hash zero i key = []
points hash (suc rounds) i key = hash (itoa i ++ key) ∷ points hash rounds (i + 1) key

-- What the inner loop of `Add` leaves behind.
pub record Placed (new : List ℕ) (key : Text) (m d : Map) : Type 0 where
  pub keys : (z : ℕ) → has z d.keys ≡ (has z m.keys || has z new)
  pub node :
      (z : ℕ)
      → lookup ℕ_discrete z d.hash_map
        ≡ (if has z new then some key else lookup ℕ_discrete z m.hash_map)
  pub hash : d.hash ≡ m.hash
  pub replicas : d.replicas ≡ m.replicas

pub add_replicas-Placed :
    (rounds i : ℕ) (key : Text) (m : Map)
    → Placed (points m.hash rounds i key) key m (add_replicas rounds i key m)
unfolding add_replicas points
add_replicas-Placed zero i key m = record {
  keys = λ z. ground arith;
  node = λ z. refl;
  hash = refl;
  replicas = refl;
}
add_replicas-Placed (suc rounds) i key m =
    let h : ℕ = m.hash (itoa i ++ key) in
    let m' : Map = record m {
      keys = m.keys ++ h ∷ [];
      hash_map = insert ℕ_discrete h key m.hash_map;
    } in
    let r : Placed (points m.hash rounds (i + 1) key) key m' (add_replicas rounds (i + 1) key m') =
      add_replicas-Placed rounds (i + 1) key m' in
    record {
      keys = λ z. ground (arith, r.keys z, has-append z m.keys (h ∷ []));
      node = λ z. elim (ℕ_discrete z h) [
        | yes p ↦ rw p (r.node h ∙ ground (arith, lookup-insert_self ℕ_discrete h key m.hash_map))
        | no p ↦ r.node z ∙ ground (arith, p, lookup-insert_ne ℕ_discrete h z key m.hash_map p)
      ];
      hash = r.hash;
      replicas = r.replicas;
    }

-- The points are hashes, and each of them belongs to a node with the property `P`.
pub record IsPlaced (P : Text → Type 0) (m : Map) : Type 0 where
  pub small : (z : ℕ) → has z m.keys ≡ true → z < 2 ^ 32
  pub named :
      (z : ℕ)
      → has z m.keys ≡ true
      → (node : Text) × (lookup ℕ_discrete z m.hash_map ≡ some node) × P node
  pub hashes : (x : Text) → m.hash x < 2 ^ 32

-- The same of a ring, which is sorted too.
pub record IsRing (P : Text → Type 0) (m : Map) : Type 0 where
  pub sorted : IsSorted m.keys
  pub placed : IsPlaced P m

points-small :
    (hash : Hash) (rounds i : ℕ) (key : Text) (z : ℕ)
    → ((x : Text) → hash x < 2 ^ 32)
    → has z (points hash rounds i key) ≡ true
    → z < 2 ^ 32
unfolding points
points-small hash zero i key z b h = cc
points-small hash (suc rounds) i key z b h =
    ground (arith, b (itoa i ++ key), points-small hash rounds (i + 1) key z b)

module _ (P : Text → Type 0) where
  add_replicas-IsPlaced :
      (rounds : ℕ) (key : Text) (m : Map)
      → P key
      → IsPlaced P m
      → IsPlaced P (add_replicas rounds 0 key m)
  add_replicas-IsPlaced rounds key m p h =
      let r : Placed (points m.hash rounds 0 key) key m (add_replicas rounds 0 key m) =
        add_replicas-Placed rounds 0 key m in
      record {
        small =
            λ z t. ground (arith, r.keys z, h.small z, points-small m.hash rounds 0 key z h.hashes);
        named = λ z t. elim (Bool-cases (has z (points m.hash rounds 0 key))) [
          | inl new ↦ (key, r.node z ∙ rw new, p)
          | inr old ↦
              let (node, e, q) = h.named z (ground (arith, r.keys z)) in
              (node, r.node z ∙ rw old e, q)
        ];
        hashes = λ x. rw r.hash (h.hashes x);
      }

  add_all-IsPlaced :
      (keys : List Text) (m : Map) → All P keys → IsPlaced P m → IsPlaced P (add_all keys m)
  unfolding add_all
  add_all-IsPlaced [] m a h = h
  add_all-IsPlaced (key ∷ keys) m a h =
      add_all-IsPlaced keys (add_replicas m.replicas 0 key m) a.1
        (add_replicas-IsPlaced m.replicas key m a.0 h)

  -- `Add` of nodes with a property makes a ring of a map whose points all have nodes with the property:
  -- its keys are sorted, each is a 32-bit hash, and each has a node with the property.
  pub add-IsRing : (m : Map) (keys : List Text) → All P keys → IsPlaced P m → IsRing P (add m keys)
  unfolding add
  add-IsRing m keys a h =
      let r : IsPlaced P (add_all keys m) = add_all-IsPlaced keys m a h in
      record {
        sorted = sort_ints-IsSorted (add_all keys m).keys;
        placed = record {
          small = λ z t. r.small z (sym (has-sort_ints z (add_all keys m).keys) ∙ t);
          named = λ z t. r.named z (sym (has-sort_ints z (add_all keys m).keys) ∙ t);
          hashes = r.hashes;
        };
      }

  -- A new map with a hash below 2 ^ 32 is an empty ring.
  pub new_map-IsPlaced :
      (replicas : ℕ) (checksum hash : Hash)
      → ((x : Text) → hash x < 2 ^ 32)
      → IsPlaced P (new_map checksum replicas (some hash))
  unfolding new_map
  new_map-IsPlaced replicas checksum hash b = record {
    small = λ z t. cc;
    named = λ z t. absurd (false≢true t);
    hashes = b;
  }

  get-node_at :
      (m : Map) (key : Text)
      → m.keys ≢ []
      → get m key ≡ node_at (get_or m.keys (position m.keys (m.hash key)) 0) m.hash_map
  unfolding get
  get-node_at m key h = ground arith

  -- What `Get` returns: the node of the nearest point.
  pub record Owned (m : Map) (key node : Text) : Type 0 where
    pub point : ℕ
    pub nearest : IsNearest (m.hash key) m.keys point
    pub read : lookup ℕ_discrete point m.hash_map ≡ some node
    pub property : P node

  length_pos : (l : List ℕ) → l ≢ [] → 0 < length l
  length_pos [] h = absurd (h refl)
  length_pos (x ∷ l) h = omega arith

  -- On a ring with points `Get` returns the node of the nearest point clockwise, and the node is one of
  -- those that the ring was given.
  pub get-Owned : (m : Map) (key : Text) → IsRing P m → m.keys ≢ [] → Owned m key (get m key)
  unfolding node_at
  get-Owned m key h ne =
      let p : ℕ = get_or m.keys (position m.keys (m.hash key)) 0 in
      let n : IsNearest (m.hash key) m.keys p =
        position-IsNearest m.keys (m.hash key) h.sorted (length_pos m.keys ne) h.placed.small
          (h.placed.hashes key) in
      let (node, e, q) = h.placed.named p n.point in
      let g : get m key ≡ node = get-node_at m key ne ∙ ground (arith, e) in
      record { point = p; nearest = n; read = e ∙ ap some (sym g); property = rw g q }
