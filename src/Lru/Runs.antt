-- ===== src/Lru/Runs.antt =====
-- CCache/lru/lru.go: any sequence of `Add` and `Get` on a new cache, beside a list of entries.
use golang_frame_practice.Common.Assoc.{delete}
use golang_frame_practice.Common.{
  ℕ, ◌+◌, ◌^◌, ◌≤◌, ◌<◌, ◌≡◌, refl, sym, ap, ◌∙◌, Bool, Option, none, some, List, [], ◌∷◌, lookup,
  length, length-append, Text, text_dec, arith, All, inl, inr, Option-cases,
}
use golang_frame_practice.Lru.{Element, Cache, new_cache, add, get}
use golang_frame_practice.Lru.Add.{add-Added}
use golang_frame_practice.Lru.Elements.{view}
use golang_frame_practice.Lru.Evict.{fit, weight-fit-le}
use golang_frame_practice.Lru.Invariant.{
  IsValid, weight, size, touch, touch_hit, get-Got, new_cache-IsValid,
}

pub data Op (V : Type 0) : Type 0 where
  adds : Text → V → Op V
  gets : Text → Op V

module _ {V : Type 0} (value_len : V → ℕ) where
  -- The calls in order, each `Add` with the same fuel, and what each `Get` returns.
  unfoldable pub run : ℕ → Cache V → List (Op V) → Option (Cache V × List (Option V))
  run fuel c [] = some (c, [])
  run fuel c (adds k v ∷ ops) = elim (add value_len fuel c k v) [
    | none ↦ none
    | some d ↦ run fuel d ops
  ]
  run fuel c (gets k ∷ ops) =
      let (d, r) = get c k in
      elim (run fuel d ops) [ none ↦ none | some (e, rs) ↦ some (e, r ∷ rs) ]

  -- The same on a list of entries, most recently used first, of which what fits in the limit stays.
  abbrev pub ideal : ℕ → List (Text × V) → List (Op V) → List (Text × V) × List (Option V)
  ideal m entries [] = (entries, [])
  ideal m entries (adds k v ∷ ops) = ideal m (fit value_len m (touch k v entries)) ops
  ideal m entries (gets k ∷ ops) =
      let (last, rs) = ideal m (touch_hit k entries) ops in (last, lookup text_dec k entries ∷ rs)

  -- No entry is so large that a sum of bytes with it overflows.
  abbrev pub IsSmall : ℕ → Op V → Type 0
  IsSmall m (adds k v) = m + size value_len k v < 2 ^ 63
  IsSmall m (gets k) = Unit

  -- What the calls have left: the entries and the results of the list, counted and within the limit.
  pub record Run (m : ℕ) (first : List (Text × V)) (ops : List (Op V)) (c : Cache V)
      (rs : List (Option V)) : Type 0 where
    pub entries : view c.linked_list ≡ (ideal m first ops).0
    pub results : rs ≡ (ideal m first ops).1
    pub counted : c.used_bytes ≡ weight value_len (view c.linked_list)
    pub bounded : c.used_bytes ≤ m

  length-view : (l : List (Element V)) → length (view l) ≡ length l
  length-view [] = refl
  length-view (e ∷ l) = omega (arith, length-view l)

  length-delete : (k : Text) (l : List (Text × V)) → length (delete text_dec k l) ≤ length l
  unfolding delete
  length-delete k [] = omega arith
  length-delete k ((q, v) ∷ l) = ground (arith, length-delete k l)

  length-touch : (k : Text) (v : V) (l : List (Text × V)) → length (touch k v l) ≤ length l + 1
  unfolding touch
  length-touch k v l = omega (arith, length-delete k l)

  length-touch_hit : (k : Text) (l : List (Text × V)) → length (touch_hit k l) ≤ length l + 1
  unfolding touch_hit
  length-touch_hit k l = elim (Option-cases (lookup text_dec k l)) [
    | inl e ↦ ground (arith, e)
    | inr (v, e) ↦ ground (arith, e, length-touch k v l)
  ]

  -- Between the calls.
  record IsKept (m n : ℕ) (c : Cache V) : Type 0 where
    valid : IsValid value_len c
    limit : c.max_bytes ≡ m
    bounded : weight value_len (view c.linked_list) ≤ m
    short : length (view c.linked_list) ≤ n

  run-Run :
      (fuel m n : ℕ) (c : Cache V) (ops : List (Op V))
      → 0 < m
      → IsKept m n c
      → All (IsSmall m) ops
      → n + length ops + 1 < fuel
      → (d : Cache V) × (rs : List (Option V)) × (run fuel c ops ≡ some (d, rs))
        × Run m (view c.linked_list) ops d rs
  unfolding run
  run-Run fuel m n c [] p h s f = (
    c,
    [],
    refl,
    record {
      entries = refl;
      results = refl;
      counted = h.valid.counted;
      bounded = omega (arith, h.valid.counted, h.bounded);
    },
  )
  run-Run fuel m n c (adds k v ∷ ops) p h s f =
      let (d, e, a) =
        add-Added value_len fuel c k v h.valid (omega (arith, h.bounded, s.0))
          (omega (arith, h.short, length-view c.linked_list)) in
      let entries : view d.linked_list ≡ fit value_len m (touch k v (view c.linked_list)) =
        ground (arith, a.entries, h.limit) in
      let short = sym (ap length a.split ∙ length-append (view d.linked_list) a.evicted) in
      let kept : IsKept m (n + 1) d = record {
        valid = a.valid;
        limit = a.max_bytes ∙ h.limit;
        bounded = omega (
          arith,
          ap (weight value_len) entries,
          weight-fit-le value_len m (touch k v (view c.linked_list)),
        );
        short = omega (arith, short, h.short, length-touch k v (view c.linked_list));
      } in
      let (last, rs, r, q) = run-Run fuel m (n + 1) d ops p kept s.1 (omega arith) in
      (
        last,
        rs,
        ground (arith, e, r),
        record {
          entries = q.entries ∙ ap (λ l. (ideal m l ops).0) entries;
          results = q.results ∙ ap (λ l. (ideal m l ops).1) entries;
          counted = q.counted;
          bounded = q.bounded;
        },
      )
  run-Run fuel m n c (gets k ∷ ops) p h s f =
      let g = get-Got value_len c k h.valid in
      let d : Cache V = (get c k).0 in
      let kept : IsKept m (n + 1) d = record {
        valid = g.valid;
        limit = g.same.1 ∙ h.limit;
        bounded = omega (arith, g.valid.counted, g.same.0, h.valid.counted, h.bounded);
        short =
            omega (arith, ap length g.entries, length-touch_hit k (view c.linked_list), h.short);
      } in
      let (last, rs, r, q) = run-Run fuel m (n + 1) d ops p kept s.1 (omega arith) in
      (
        last,
        (get c k).1 ∷ rs,
        ground (arith, r),
        record {
          entries = q.entries ∙ ap (λ l. (ideal m l ops).0) g.entries;
          results =
              ap (λ o. o ∷ rs) g.result
              ∙ ap (λ l. lookup text_dec k (view c.linked_list) ∷ l)
                  (q.results ∙ ap (λ l. (ideal m l ops).1) g.entries);
          counted = q.counted;
          bounded = q.bounded;
        },
      )

  -- On a new cache with a positive limit, any calls of `Add` and `Get`, with entries that do not overflow
  -- a 64-bit integer with the limit and with more fuel than one beyond the calls: all of them end, `Get`
  -- returns and the cache holds what the list of entries has, and the bytes are counted and within the
  -- limit.
  pub run-new_cache :
      (fuel m : ℕ) (b : Bool) (ops : List (Op V))
      → 0 < m
      → m < 2 ^ 63
      → All (IsSmall m) ops
      → length ops + 1 < fuel
      → (d : Cache V) × (rs : List (Option V)) × (run fuel (new_cache m b) ops ≡ some (d, rs))
        × Run m [] ops d rs
  unfolding new_cache
  run-new_cache fuel m b ops p w s f =
      run-Run fuel m 0 (new_cache m b) ops p
        (record {
          valid = new_cache-IsValid value_len m b w;
          limit = refl;
          bounded = omega arith;
          short = omega arith;
        })
        s (omega arith)
