-- ===== src/Lru/Evict.antt =====
-- CCache/lru/lru.go: `RemoveOldest` and the eviction loop of `Add`, against the longest run of the
-- most recent entries that fits.
use mathlib.Core.List.{reverse, reverse-append, append_assoc, append-nil}
use golang_frame_practice.Common.Assoc.{delete, lookup-delete_self, lookup-delete_ne}
use golang_frame_practice.Common.Int64.{add64, sub64, add64_exact, sub64_exact, gt64_exact}
use golang_frame_practice.Common.{
  ℕ, zero, suc, ◌+◌, ◌-◌, ◌^◌, ◌≤◌, ◌<◌, ◌≡◌, refl, sym, ap, ◌∙◌, ◌≢◌, true, false, not, ◌&&◌, ◌==◌,
  ltb, if◌then◌else◌, some, List, [], ◌∷◌, ◌++◌, lookup, ite, dec_le, length, Text, text_dec, arith,
  inl, inr, Option-cases, Bool-cases,
}
use golang_frame_practice.Lru.{Element, Cache, back, remove_id, remove_oldest, is_over, evict}
use golang_frame_practice.Lru.Elements.{
  view, id_of, Found, find-Found, id_of-remove_ne, remove-IsDistinct, remove-IsBelow, Last,
  back-Last, back-none,
}
use golang_frame_practice.Lru.Invariant.{size, weight, IsValid, weight-remove}

module _ {V : Type 0} (value_len : V → ℕ) where
  -- The longest run of first entries that weighs `m` at most.
  unfoldable pub fit : ℕ → List (Text × V) → List (Text × V)
  fit m [] = []
  fit m ((k, v) ∷ xs) =
      ite (dec_le (size value_len k v) m) ((k, v) ∷ fit (m - size value_len k v) xs) []

  pub fit_all : (m : ℕ) (xs : List (Text × V)) → weight value_len xs ≤ m → fit m xs ≡ xs
  unfolding fit
  fit_all m [] h = refl
  fit_all m ((k, v) ∷ xs) h = ground (arith, fit_all (m - size value_len k v) xs)

  pub fit-snoc :
      (m : ℕ) (xs : List (Text × V)) (k : Text) (v : V)
      → m < weight value_len (xs ++ (k, v) ∷ [])
      → fit m (xs ++ (k, v) ∷ []) ≡ fit m xs
  unfolding fit
  fit-snoc m [] k v h = ground arith
  fit-snoc m ((j, w) ∷ xs) k v h = ground (arith, fit-snoc (m - size value_len j w) xs k v)

  pub weight-fit-le : (m : ℕ) (xs : List (Text × V)) → weight value_len (fit m xs) ≤ m
  unfolding fit
  weight-fit-le m [] = omega arith
  weight-fit-le m ((k, v) ∷ xs) = ground (arith, weight-fit-le (m - size value_len k v) xs)

  -- The cache after one eviction of `e`.
  pub record Dropped (e : Element V) (c d : Cache V) : Type 0 where
    pub valid : IsValid value_len d
    split : view c.linked_list ≡ view d.linked_list ++ (e.key, e.value) ∷ []
    shorter : length c.linked_list ≡ suc (length d.linked_list)
    max_bytes : d.max_bytes ≡ c.max_bytes
    on_evicted : d.on_evicted ≡ c.on_evicted
    calls : d.calls ≡ (if c.on_evicted then c.calls ++ (e.key, e.value) ∷ [] else c.calls)

  remove-index :
      (c : Cache V) (k : Text) (i : ℕ)
      → IsValid value_len c
      → id_of k c.linked_list ≡ some i
      → (q : Text)
      → lookup text_dec q (delete text_dec k c.cache) ≡ id_of q (remove_id i c.linked_list)
  remove-index c k i h e q = elim (text_dec q k) [
    | yes p ↦ rw p (
        lookup-delete_self text_dec k c.cache
        ∙ sym (find-Found k i c.linked_list h.distinct e).gone)
    | no p ↦
        lookup-delete_ne text_dec k q c.cache p
        ∙ h.index q
        ∙ sym (id_of-remove_ne k q i c.linked_list h.distinct e p)
  ]

  unused : (u a b : ℕ) → u < 2 ^ 63 → a + b ≤ u → sub64 u (add64 a b) ≡ u - (a + b)
  unused u a b h k = rw (add64_exact a b (omega arith)) (sub64_exact u (a + b) k h)

  pub remove_oldest-Dropped :
      (c : Cache V) {e : Element V}
      → IsValid value_len c
      → back c.linked_list ≡ some e
      → Dropped e c (remove_oldest value_len c)
  unfolding remove_oldest
  remove_oldest-Dropped c {e} h b =
      let l : Last e c.linked_list = back-Last c.linked_list h.distinct b in
      let r : Found e.key e.id c.linked_list =
        find-Found e.key e.id c.linked_list h.distinct l.pointer in
      let w : weight value_len (view (remove_id e.id c.linked_list)) + size value_len e.key e.value
          ≡ weight value_len (view c.linked_list) =
        weight-remove value_len e.id c.linked_list l.target in
      let u : sub64 c.used_bytes (add64 (length e.key) (value_len e.value))
          ≡ weight value_len (view (remove_id e.id c.linked_list)) =
        unused c.used_bytes (length e.key) (value_len e.value) h.small (omega (arith, h.counted))
        ∙ omega (arith, h.counted) in
      rw (b, remove_oldest)
        (record {
          valid = record {
            index = λ q. remove-index c e.key e.id h l.pointer q;
            distinct = remove-IsDistinct e.id c.linked_list h.distinct;
            below = remove-IsBelow c.fresh e.id c.linked_list h.below;
            counted = u;
            small = rw u (omega (arith, h.counted, h.small));
            limit = h.limit;
          };
          split = l.split;
          shorter = l.shorter;
          max_bytes = refl;
          on_evicted = refl;
          calls = refl;
        })

  -- What the loop does to a valid cache: it keeps what fits, and evicts the rest, oldest first, with
  -- a call of the callback for each.
  pub record Evicted (c d : Cache V) : Type 0 where
    pub valid : IsValid value_len d
    pub entries :
        view d.linked_list
        ≡ (if c.max_bytes == 0 then view c.linked_list else fit c.max_bytes (view c.linked_list))
    pub evicted : List (Text × V)
    pub split : view c.linked_list ≡ view d.linked_list ++ evicted
    pub calls : d.calls ≡ (if c.on_evicted then c.calls ++ reverse evicted else c.calls)
    pub max_bytes : d.max_bytes ≡ c.max_bytes
    pub on_evicted : d.on_evicted ≡ c.on_evicted

  -- On a valid cache the loop's test compares plain numbers.
  is_over-eq :
      (c : Cache V)
      → IsValid value_len c
      → is_over c
        ≡ (not (c.max_bytes == 0) && ltb c.max_bytes (weight value_len (view c.linked_list)))
  unfolding is_over
  is_over-eq c h = ground (arith, gt64_exact c.used_bytes c.max_bytes h.small h.limit, h.counted)

  over_bounds :
      (c : Cache V)
      → IsValid value_len c
      → is_over c ≡ true
      → (c.max_bytes ≢ 0) × (c.max_bytes < weight value_len (view c.linked_list))
  over_bounds c h e = ground (arith, is_over-eq c h)

  evict_done : (c : Cache V) → IsValid value_len c → is_over c ≡ false → Evicted c c
  evict_done c h e = record {
    valid = h;
    entries = ground (arith, is_over-eq c h, fit_all c.max_bytes (view c.linked_list));
    evicted = [];
    split = sym (append-nil (view c.linked_list));
    calls = ground (arith, append-nil c.calls);
    max_bytes = refl;
    on_evicted = refl;
  }

  evict_more :
      (e : Element V) (c d d' : Cache V)
      → IsValid value_len c
      → is_over c ≡ true
      → Dropped e c d
      → Evicted d d'
      → Evicted c d'
  evict_more e c d d' h over s r = record {
    valid = r.valid;
    entries =
        let b : c.max_bytes < weight value_len (view d.linked_list ++ (e.key, e.value) ∷ []) =
          rw s.split at (over_bounds c h over).1 in
        ground (
          arith,
          over_bounds c h over,
          s.max_bytes,
          s.split,
          r.entries,
          fit-snoc c.max_bytes (view d.linked_list) e.key e.value b,
        );
    evicted = r.evicted ++ (e.key, e.value) ∷ [];
    split =
        s.split ∙ rw r.split (append_assoc (view d'.linked_list) r.evicted ((e.key, e.value) ∷ []));
    calls = ground (
      arith,
      r.calls,
      s.calls,
      s.on_evicted,
      reverse-append r.evicted ((e.key, e.value) ∷ []),
      append_assoc c.calls ((e.key, e.value) ∷ []) (reverse r.evicted),
    );
    max_bytes = r.max_bytes ∙ s.max_bytes;
    on_evicted = r.on_evicted ∙ s.on_evicted;
  }

  -- More fuel than entries is enough.
  pub evict-Evicted :
      (fuel : ℕ) (c : Cache V)
      → IsValid value_len c
      → length c.linked_list < fuel
      → (d : Cache V) × (evict value_len fuel c ≡ some d) × Evicted c d
  unfolding evict
  evict-Evicted zero c h n = elim n [ ]
  evict-Evicted (suc fuel) c h n = elim (Bool-cases (is_over c)) [
    | inl over ↦ elim (Option-cases (back c.linked_list)) [
      | inl empty ↦ absurd (
          omega (
            arith,
            (over_bounds c h over).1,
            ap (λ l. weight value_len (view l)) (back-none c.linked_list empty),
          ))
      | inr (e, b) ↦
          let s : Dropped e c (remove_oldest value_len c) = remove_oldest-Dropped c h b in
          let (d, run, r) =
            evict-Evicted fuel (remove_oldest value_len c) s.valid (omega (arith, s.shorter)) in
          (d, rw (over, evict) run, evict_more e c (remove_oldest value_len c) d h over s r)
    ]
    | inr done ↦ (c, rw (done, evict), evict_done c h done)
  ]
