-- ===== src/Lru/Invariant.antt =====
-- CCache/lru/lru.go: the map, the list and the byte count agree, and `New` and `Get` keep it so.
use golang_frame_practice.Common.Assoc.{delete}
use golang_frame_practice.Common.{
  ℕ, ◌+◌, ◌^◌, ◌<◌, ◌≡◌, refl, sym, ◌∙◌, Bool, Option, none, some, List, [], ◌∷◌, lookup,
  ℕ_discrete, length, Text, text_dec, arith, inl, inr, Option-cases,
}
use golang_frame_practice.Lru.{Element, Cache, new_cache, find_id, remove_id, move_to_front, get}
use golang_frame_practice.Lru.Elements.{
  view, id_of, IsDistinct, IsBelow, Found, find-Found, id_of-remove_ne, remove-IsDistinct,
  remove-IsBelow, find_id_id, lookup-view-none,
}

-- What a use of a key does to the entries, most recently used first.
unfoldable pub touch : {V : Type 0} → Text → V → List (Text × V) → List (Text × V)
touch k v m = (k, v) ∷ delete text_dec k m

unfoldable pub touch_hit : {V : Type 0} → Text → List (Text × V) → List (Text × V)
touch_hit k m = elim (lookup text_dec k m) [ none ↦ m | some v ↦ touch k v m ]

-- An element moved to the front, with its value changed or not.
unfoldable pub front : {V : Type 0} → ℕ → Text → V → Cache V → List (Element V)
front i k v c = record { id = i; key = k; value = v } ∷ remove_id i c.linked_list

module _ {V : Type 0} (value_len : V → ℕ) where
  -- The bytes of an entry and of all entries, as plain numbers.
  abbrev pub size : Text → V → ℕ
  size k v = length k + value_len v

  abbrev pub weight : List (Text × V) → ℕ
  weight [] = 0
  weight ((k, v) ∷ m) = size k v + weight m

  pub record IsValid (c : Cache V) : Type 0 where
    pub index : (k : Text) → lookup text_dec k c.cache ≡ id_of k c.linked_list
    pub distinct : IsDistinct c.linked_list
    pub below : IsBelow c.fresh c.linked_list
    pub counted : c.used_bytes ≡ weight (view c.linked_list)
    pub small : c.used_bytes < 2 ^ 63
    pub limit : c.max_bytes < 2 ^ 63

  pub weight-remove :
      (i : ℕ) (l : List (Element V)) {e : Element V}
      → find_id i l ≡ some e
      → weight (view (remove_id i l)) + size e.key e.value ≡ weight (view l)
  unfolding find_id remove_id
  weight-remove i [] h = cc
  weight-remove i (f ∷ l) {e} h = elim (ℕ_discrete f.id i) [
    | yes p ↦ ground arith
    | no p ↦ ground (arith, weight-remove i l {e = e} (ground arith))
  ]

  pub front-index :
      (c : Cache V) (i : ℕ) (k : Text) (v : V)
      → IsValid c
      → id_of k c.linked_list ≡ some i
      → (q : Text) → lookup text_dec q c.cache ≡ id_of q (front i k v c)
  unfolding front id_of
  front-index c i k v h e q = elim (text_dec q k) [
    | yes p ↦ ground (arith, h.index q)
    | no p ↦ ground (arith, h.index q, id_of-remove_ne k q i c.linked_list h.distinct e p)
  ]

  pub front-IsDistinct :
      (c : Cache V) (i : ℕ) (k : Text) (v : V)
      → IsValid c
      → id_of k c.linked_list ≡ some i
      → IsDistinct (front i k v c)
  unfolding front
  front-IsDistinct c i k v h e =
      let r : Found k i c.linked_list = find-Found k i c.linked_list h.distinct e in
      (r.gone, r.freed, remove-IsDistinct i c.linked_list h.distinct)

  pub front-IsBelow :
      (c : Cache V) (i : ℕ) (k : Text) (v : V)
      → IsValid c
      → id_of k c.linked_list ≡ some i
      → IsBelow c.fresh (front i k v c)
  unfolding front
  front-IsBelow c i k v h e =
      let r : Found k i c.linked_list = find-Found k i c.linked_list h.distinct e in
      let b : r.element.id < c.fresh = find_id_id i c.linked_list r.found c.fresh h.below in
      (ground (arith, r.its_id), remove-IsBelow c.fresh i c.linked_list h.below)

  -- A new cache with a limit that is not negative is valid and empty.
  pub new_cache-IsValid : (m : ℕ) (b : Bool) → m < 2 ^ 63 → IsValid (new_cache m b)
  unfolding new_cache lookup id_of
  new_cache-IsValid m b h = record {
    index = λ k. refl;
    distinct = tt;
    below = tt;
    counted = refl;
    small = omega arith;
    limit = h;
  }

  get_miss : (c : Cache V) (k : Text) → lookup text_dec k c.cache ≡ none → get c k ≡ (c, none)
  unfolding get
  get_miss c k h = ground arith

  get_hit :
      (c : Cache V) (k : Text) (i : ℕ)
      → lookup text_dec k c.cache ≡ some i
      → (r : Found k i c.linked_list)
      → get c k ≡ (record c { linked_list = front i k r.element.value c }, some r.element.value)
  unfolding get front move_to_front find_id
  get_hit c k i h r = ground (arith, r.found, r.its_key, r.its_id)

  -- What `Get` does to a valid cache and returns.
  pub record Got (k : Text) (c : Cache V) (r : Cache V × Option V) : Type 0 where
    pub result : r.1 ≡ lookup text_dec k (view c.linked_list)
    pub entries : view r.0.linked_list ≡ touch_hit k (view c.linked_list)
    pub valid : IsValid r.0
    pub same :
        (r.0.used_bytes ≡ c.used_bytes)
        × (r.0.max_bytes ≡ c.max_bytes)
        × (r.0.calls ≡ c.calls)
        × (r.0.on_evicted ≡ c.on_evicted)

  front-IsValid :
      (c : Cache V) (k : Text) (i : ℕ)
      → IsValid c
      → (r : Found k i c.linked_list) → id_of k c.linked_list ≡ some i
      → IsValid (record c { linked_list = front i k r.element.value c })
  unfolding front
  front-IsValid c k i h r e = record {
    index = front-index c i k r.element.value h e;
    distinct = front-IsDistinct c i k r.element.value h e;
    below = front-IsBelow c i k r.element.value h e;
    counted = ground (arith, h.counted, weight-remove i c.linked_list r.found, r.its_key);
    small = h.small;
    limit = h.limit;
  }

  -- On a valid cache `Get` returns what the abstract list of entries has for the key, moves that entry
  -- to the front, keeps the cache valid, and changes neither the bytes, the limit nor the callback.
  pub get-Got : (c : Cache V) (k : Text) → IsValid c → Got k c (get c k)
  unfolding touch_hit touch front
  get-Got c k h = elim (Option-cases (lookup text_dec k c.cache)) [
    | inl miss ↦
        let t : lookup text_dec k (view c.linked_list) ≡ none =
          lookup-view-none k c.linked_list (sym (h.index k) ∙ miss) in
        rw (get_miss c k miss) (record {
          result = sym t;
          entries = rw (t, touch_hit);
          valid = h;
          same = (refl, refl, refl, refl);
        })
    | inr (i, hit) ↦
        let e : id_of k c.linked_list ≡ some i = sym (h.index k) ∙ hit in
        let r : Found k i c.linked_list = find-Found k i c.linked_list h.distinct e in
        rw (get_hit c k i hit r) (record {
          result = sym r.read;
          entries = ground (arith, r.read, r.removed);
          valid = front-IsValid c k i h r e;
          same = (refl, refl, refl, refl);
        })
  ]
