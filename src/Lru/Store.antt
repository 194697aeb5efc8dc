-- ===== src/Lru/Store.antt =====
-- CCache/lru/lru.go: the first half of `Add`, on a valid cache.
use golang_frame_practice.Common.Assoc.{lookup-insert_self, lookup-insert_ne}
use golang_frame_practice.Common.Int64.{add64, sub64, add64_exact, add64-sub64}
use golang_frame_practice.Common.{
  ℕ, ◌+◌, ◌^◌, ◌≤◌, ◌<◌, ◌≡◌, refl, sym, ◌∙◌, none, some, List, [], ◌∷◌, lookup, length, Text,
  text_dec, arith, inl, inr, Option-cases,
}
use golang_frame_practice.Lru.{Element, Cache, remove_id, set_value, move_to_front, store}
use golang_frame_practice.Lru.Elements.{
  view, id_of, Found, find-Found, delete-view-none, find-below, IsBelow-suc,
}
use golang_frame_practice.Lru.Invariant.{
  size, weight, IsValid, weight-remove, touch, front, front-index, front-IsDistinct, front-IsBelow,
}

module _ {V : Type 0} (value_len : V → ℕ) where
  length-remove_le : (i : ℕ) (l : List (Element V)) → length (remove_id i l) ≤ length l
  unfolding remove_id
  length-remove_le i [] = omega arith
  length-remove_le i (e ∷ l) = ground (arith, length-remove_le i l)

  -- What the first half of `Add` does to a valid cache.
  pub record Stored (k : Text) (v : V) (c d : Cache V) : Type 0 where
    pub valid : IsValid value_len d
    pub entries : view d.linked_list ≡ touch k v (view c.linked_list)
    pub longer : length d.linked_list ≤ length c.linked_list + 1
    pub same : (d.max_bytes ≡ c.max_bytes) × (d.calls ≡ c.calls) × (d.on_evicted ≡ c.on_evicted)

  module _ (c : Cache V) (k : Text) (v : V) (h : IsValid value_len c)
      (room : weight value_len (view c.linked_list) + size value_len k v < 2 ^ 63) where
    store_new : lookup text_dec k c.cache ≡ none → Stored k v c (store value_len c k v)
    unfolding store touch id_of
    store_new miss =
        let e : id_of k c.linked_list ≡ none = sym (h.index k) ∙ miss in
        let u : add64 c.used_bytes (add64 (length k) (value_len v))
            ≡ weight value_len (view c.linked_list) + size value_len k v =
          rw (add64_exact (length k) (value_len v) (omega arith)) (
            add64_exact c.used_bytes (size value_len k v) (omega (arith, h.counted))
            ∙ omega (arith, h.counted)) in
        rw (miss, store)
          (record {
            valid = record {
              index = λ q. elim (text_dec q k) [
                | yes p ↦ ground (arith, lookup-insert_self text_dec k c.fresh c.cache)
                | no p ↦ ground (arith, lookup-insert_ne text_dec k q c.fresh c.cache p, h.index q)
              ];
              distinct = (e, find-below c.fresh c.linked_list h.below, h.distinct);
              below = (omega arith, IsBelow-suc c.fresh c.linked_list h.below);
              counted = omega (arith, u);
              small = omega (arith, u);
              limit = h.limit;
            };
            entries = ground (arith, delete-view-none k c.linked_list e);
            longer = omega arith;
            same = (refl, refl, refl);
          })

    store_hit :
        (i : ℕ)
        → lookup text_dec k c.cache ≡ some i
        → (r : Found k i c.linked_list)
        → store value_len c k v ≡ record c {
          linked_list = front i k v c;
          used_bytes = add64 c.used_bytes (sub64 (value_len v) (value_len r.element.value));
        }
    unfolding store front set_value move_to_front
    store_hit i hit r = ground (arith, r.found, r.its_key, r.its_id)

    store_old : (i : ℕ) → lookup text_dec k c.cache ≡ some i → Stored k v c (store value_len c k v)
    unfolding touch front
    store_old i hit =
        let e : id_of k c.linked_list ≡ some i = sym (h.index k) ∙ hit in
        let r : Found k i c.linked_list = find-Found k i c.linked_list h.distinct e in
        let w : weight value_len (view (remove_id i c.linked_list))
              + size value_len r.element.key r.element.value
            ≡ weight value_len (view c.linked_list) =
          weight-remove value_len i c.linked_list r.found in
        let w' : weight value_len (view (remove_id i c.linked_list))
              + size value_len k r.element.value
            ≡ weight value_len (view c.linked_list) =
          rw r.its_key at w in
        let u : add64 c.used_bytes (sub64 (value_len v) (value_len r.element.value))
            ≡ weight value_len (view (front i k v c)) =
          add64-sub64 c.used_bytes (value_len v) (value_len r.element.value)
            (omega (arith, h.counted)) h.small (omega arith) (omega (arith, h.counted))
          ∙ omega (arith, h.counted) in
        rw (store_hit i hit r) (record {
          valid = record {
            index = front-index value_len c i k v h e;
            distinct = front-IsDistinct value_len c i k v h e;
            below = front-IsBelow value_len c i k v h e;
            counted = u;
            small = omega (arith, u, h.counted);
            limit = h.limit;
          };
          entries = ground (arith, r.removed);
          longer = omega (arith, length-remove_le i c.linked_list);
          same = (refl, refl, refl);
        })

    pub store-Stored : Stored k v c (store value_len c k v)
    store-Stored = elim (Option-cases (lookup text_dec k c.cache)) [
      | inl miss ↦ store_new miss
      | inr (i, hit) ↦ store_old i hit
    ]
