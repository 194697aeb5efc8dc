-- ===== src/ConsistentHash/Moves.antt =====
-- CCache/consistenthash/consistent_hash.go: a new node takes keys over and moves no other key.
use mathlib.Core.Bool.{false≢true}
use mathlib.Core.Path.{subst}
use native.Mathlib.Nat.{le_antisymm}
use golang_frame_practice.Common.{
  ℕ, eq_of_some, ◌≡◌, sym, ap, ◌≤◌, ◌∙◌, ◌≢◌, ◌⊎◌, inl, inr, true, List, [], ◌∷◌, arith, Text,
  Bool-cases,
}
use golang_frame_practice.ConsistentHash.{Hash, Map, add_replicas, add_all, add, get}
use golang_frame_practice.ConsistentHash.Owner.{
  points, Placed, add_replicas-Placed, IsRing, add-IsRing, Owned, get-Owned,
}
use golang_frame_practice.ConsistentHash.Ring.{distance, distance-injective}
use golang_frame_practice.ConsistentHash.Sort.{has, has-sort_ints}

-- `Add` of one node leaves its points beside the old ones.
add-Placed :
    (m : Map) (node : Text) → Placed (points m.hash m.replicas 0 node) node m (add m (node ∷ []))
unfolding add add_all
add-Placed m node =
    let r : Placed (points m.hash m.replicas 0 node) node m (add_replicas m.replicas 0 node m) =
      add_replicas-Placed m.replicas 0 node m in
    record {
      keys = λ z. has-sort_ints z (add_replicas m.replicas 0 node m).keys ∙ r.keys z;
      node = r.node;
      hash = r.hash;
      replicas = r.replicas;
    }

not_empty : (l l' : List ℕ) (z : ℕ) → has z l' ≡ true → l' ≢ []
not_empty l l' z h e = false≢true (sym (ap (has z) e) ∙ h)

-- On a ring with points, after one node is added, every key is owned by the node that owned it before
-- or by the new node.
pub get-add_node :
    (P : Text → Type 0) (m : Map) (node key : Text)
    → IsRing P m
    → m.keys ≢ []
    → P node
    → (get (add m (node ∷ [])) key ≡ get m key) ⊎ (get (add m (node ∷ [])) key ≡ node)
get-add_node P m node key h ne p =
    let m' : Map = add m (node ∷ []) in
    let r : Placed (points m.hash m.replicas 0 node) node m m' = add-Placed m node in
    let before : Owned P m key (get m key) = get-Owned P m key h ne in
    let kept : has before.point m'.keys ≡ true =
      ground (arith, r.keys before.point, before.nearest.point) in
    let ring : IsRing P m' = add-IsRing P m (node ∷ []) (p, tt) h.placed in
    let after : Owned P m' key (get m' key) =
      get-Owned P m' key ring (not_empty m.keys m'.keys before.point kept) in
    elim (Bool-cases (has after.point (points m.hash m.replicas 0 node))) [
      | inl new ↦ inr (eq_of_some (sym after.read ∙ r.node after.point ∙ rw new))
      | inr old ↦
          let there : has after.point m.keys ≡ true =
            ground (arith, r.keys after.point, after.nearest.point) in
          let same : after.point ≡ before.point =
            distance-injective (m.hash key) after.point before.point (h.placed.hashes key)
              (h.placed.small after.point there) (h.placed.small before.point before.nearest.point)
              (le_antisymm
                (subst (λ (f : Hash). distance (f key) after.point ≤ distance (f key) before.point)
                  r.hash (after.nearest.least before.point kept))
                (before.nearest.least after.point there)) in
          inl (eq_of_some (sym after.read ∙ r.node after.point ∙ rw (old, same) before.read))
    ]
