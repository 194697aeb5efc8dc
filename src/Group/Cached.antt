-- ===== src/Group/Cached.antt =====
-- CCache/cache.go: the cache of a group holds only what the getter returned.
use golang_frame_practice.Common.Assoc.{lookup-delete_ne}
use golang_frame_practice.Common.Outcome.{Outcome, ok}
use golang_frame_practice.Common.{
  ℕ, ◌+◌, ◌-◌, ◌^◌, ◌≤◌, ◌<◌, ◌≡◌, refl, sym, ap, ◌∙◌, ◌⊎◌, Option, none, some, List, [], ◌∷◌,
  lookup, length, Text, text_dec, arith, inl, inr, false,
}
use golang_frame_practice.Group.{ByteView, view_len, Box, opened, box_add, box_get}
use golang_frame_practice.Lru
use golang_frame_practice.Lru.{Cache}
use golang_frame_practice.Lru.Add.{add-Added, get-add}
use golang_frame_practice.Lru.Elements.{view}
use golang_frame_practice.Lru.Evict.{fit, weight-fit-le}
use golang_frame_practice.Lru.Invariant.{
  IsValid, weight, size, touch, touch_hit, Got, get-Got, new_cache-IsValid,
}

module _ {V : Type 0} where
  lookup-touch_hit :
      (q k : Text) (m : List (Text × V)) → lookup text_dec q (touch_hit k m) ≡ lookup text_dec q m
  unfolding touch_hit touch lookup
  lookup-touch_hit q k m = elim (text_dec q k) [
    | yes p ↦ rw p (ground arith)
    | no p ↦ ground (arith, lookup-delete_ne text_dec k q m p)
  ]

  lookup-touch :
      (q k : Text) (v w : V) (m : List (Text × V))
      → lookup text_dec q (touch k v m) ≡ some w
      → ((q ≡ k) × (v ≡ w)) ⊎ (lookup text_dec q m ≡ some w)
  unfolding touch lookup
  lookup-touch q k v w m h = elim (text_dec q k) [
    | yes p ↦ inl (p, ground arith)
    | no p ↦ inr (ground (arith, lookup-delete_ne text_dec k q m p))
  ]

  lookup-fit :
      (value_len : V → ℕ) (n : ℕ) (q : Text) (m : List (Text × V)) {w : V}
      → lookup text_dec q (fit value_len n m) ≡ some w
      → lookup text_dec q m ≡ some w
  unfolding fit lookup
  lookup-fit value_len n q [] h = h
  lookup-fit value_len n q ((k, v) ∷ m) {w} h =
      ground (arith, lookup-fit value_len (n - size value_len k v) q m {w = w})

module _ (getter : Text → Outcome Text) where
  -- The LRU cache has a positive limit, keeps it, and each of its values is the getter's.
  pub record Holds (limit : ℕ) (l : Cache ByteView) : Type 0 where
    pub valid : IsValid view_len l
    pub bounded : weight view_len (view l.linked_list) ≤ limit
    pub max_bytes : l.max_bytes ≡ limit
    pub positive : 0 < limit
    pub source :
        (k : Text) (v : ByteView)
        → lookup text_dec k (view l.linked_list) ≡ some v
        → getter k ≡ ok v.b

  pub get-Holds : (n : ℕ) (l : Cache ByteView) (k : Text) → Holds n l → Holds n (Lru.get l k).0
  get-Holds n l k h =
      let g : Got view_len k l (Lru.get l k) = get-Got view_len l k h.valid in
      record {
        valid = g.valid;
        bounded = omega (arith, g.valid.counted, g.same.0, h.valid.counted, h.bounded);
        max_bytes = g.same.1 ∙ h.max_bytes;
        positive = h.positive;
        source = λ q v e. h.source q v (
            sym (lookup-touch_hit q k (view l.linked_list))
            ∙ ap (lookup text_dec q) (sym g.entries)
            ∙ e);
      }

  pub add-Holds :
      (n : ℕ) (l : Cache ByteView) (k : Text) (v : ByteView)
      → Holds n l
      → getter k ≡ ok v.b
      → n + size view_len k v < 2 ^ 63
      → (d : Cache ByteView) × (Lru.add view_len (Lru.len l + 2) l k v ≡ some d) × Holds n d
  unfolding Lru.len
  add-Holds n l k v h e room =
      let (d, run, r) =
        add-Added view_len (length l.linked_list + 2) l k v h.valid (omega (arith, h.bounded))
          (omega arith) in
      let t : view d.linked_list ≡ fit view_len n (touch k v (view l.linked_list)) =
        ground (arith, r.entries, h.max_bytes, h.positive) in
      (
        d,
        run,
        record {
          valid = r.valid;
          bounded = rw t (weight-fit-le view_len n (touch k v (view l.linked_list)));
          max_bytes = r.max_bytes ∙ h.max_bytes;
          positive = h.positive;
          source = λ q w s.
              elim (lookup-touch q k v w (view l.linked_list) (
                lookup-fit view_len n q (touch k v (view l.linked_list))
                  (ap (lookup text_dec q) (sym t) ∙ s))) [
                    | inl (same, value) ↦ ap getter same ∙ e ∙ ap (λ (x : ByteView). ok x.b) value
                    | inr old ↦ h.source q w old
                  ];
        },
      )

  -- A new box with a positive limit holds nothing.
  pub new_cache-Holds : (n : ℕ) → 0 < n → n < 2 ^ 63 → Holds n (Lru.new_cache n false)
  unfolding Lru.new_cache lookup
  new_cache-Holds n p h = record {
    valid = unfold Lru.new_cache in new_cache-IsValid view_len n false h;
    bounded = omega arith;
    max_bytes = refl;
    positive = p;
    source = λ k v e. cc;
  }

  abbrev pub IsCoherent : Box → Type 0
  IsCoherent c = Holds c.cache_bytes (opened c)

  get-opened :
      (n : ℕ) (o : Option (Cache ByteView)) (k : Text)
      → Holds n (opened (record { lru = o; cache_bytes = n }))
      → IsCoherent (box_get (record { lru = o; cache_bytes = n }) k).0
        × ((box_get (record { lru = o; cache_bytes = n }) k).1
            ≡ lookup text_dec k (view (opened (record { lru = o; cache_bytes = n })).linked_list))
  unfolding box_get opened Lru.new_cache lookup
  get-opened n none k h = (h, refl)
  get-opened n (some l) k h = (get-Holds n l k h, (get-Got view_len l k h.valid).result)

  box_get-cache_bytes : (c : Box) (k : Text) → (box_get c k).0.cache_bytes ≡ c.cache_bytes
  unfolding box_get
  box_get-cache_bytes c k = ground arith

  pub box_get-IsCoherent :
      (c : Box) (k : Text)
      → IsCoherent c
      → IsCoherent (box_get c k).0
        × ((box_get c k).1 ≡ lookup text_dec k (view (opened c).linked_list))
        × ((box_get c k).0.cache_bytes ≡ c.cache_bytes)
  box_get-IsCoherent c k h =
      let r = get-opened c.cache_bytes c.lru k h in (r.0, r.1, box_get-cache_bytes c k)

  pub box_add-IsCoherent :
      (c : Box) (k : Text) (v : ByteView)
      → IsCoherent c
      → getter k ≡ ok v.b
      → c.cache_bytes + size view_len k v < 2 ^ 63
      → (d : Box) × (box_add c k v ≡ some d) × IsCoherent d × (d.cache_bytes ≡ c.cache_bytes)
  unfolding box_add opened
  box_add-IsCoherent c k v h e room =
      let (l, run, r) = add-Holds c.cache_bytes (opened c) k v h e room in
      (record c { lru = some l }, ground (arith, run), r, refl)

  get-get_read :
      (n : ℕ) (l : Cache ByteView) (k : Text)
      → Holds n l
      → (Lru.get (Lru.get l k).0 k).1 ≡ lookup text_dec k (view l.linked_list)
  get-get_read n l k h =
      let g : Got view_len k l (Lru.get l k) = get-Got view_len l k h.valid in
      let g' = get-Got view_len (Lru.get l k).0 k g.valid in
      g'.result ∙ ap (lookup text_dec k) g.entries ∙ lookup-touch_hit k k (view l.linked_list)

  box_get-box_get-opened :
      (n : ℕ) (o : Option (Cache ByteView)) (k : Text)
      → Holds n (opened (record { lru = o; cache_bytes = n }))
      → (box_get (box_get (record { lru = o; cache_bytes = n }) k).0 k).1
        ≡ lookup text_dec k (view (opened (record { lru = o; cache_bytes = n })).linked_list)
  unfolding box_get opened Lru.new_cache lookup
  box_get-box_get-opened n none k h = refl
  box_get-box_get-opened n (some l) k h = get-get_read n l k h

  -- A value that fits is there at the next `get`, and a value that was there stays.
  pub box_get-box_add :
      (c d : Box) (k : Text) (v : ByteView)
      → IsCoherent c
      → c.cache_bytes + size view_len k v < 2 ^ 63
      → size view_len k v ≤ c.cache_bytes
      → box_add c k v ≡ some d
      → (box_get d k).1 ≡ some v
  unfolding box_add box_get Lru.len
  box_get-box_add c d k v h room fits e =
      let (l, run, read) =
        get-add view_len (length (opened c).linked_list + 2) (opened c) k v h.valid
          (omega (arith, h.bounded)) (omega arith) (inr (rw h.max_bytes fits)) in
      ground (arith, run, read)

  pub box_get-box_get :
      (c : Box) (k : Text) → IsCoherent c → (box_get (box_get c k).0 k).1 ≡ (box_get c k).1
  box_get-box_get c k h =
      box_get-box_get-opened c.cache_bytes c.lru k h ∙ sym (box_get-IsCoherent c k h).1
