-- ===== src/Lru/Add.antt =====
-- CCache/lru/lru.go: `Add` on a valid cache, and what a later `Get` reads.
use mathlib.Core.List.{reverse}
use golang_frame_practice.Common.Int64.{gt64_negative}
use golang_frame_practice.Common.{
  ℕ, zero, suc, ◌+◌, ◌^◌, ◌≤◌, ◌<◌, ◌≡◌, refl, sym, ◌∙◌, ◌⊎◌, ◌==◌, if◌then◌else◌, none, some, List,
  ◌++◌, lookup, length, Text, arith, inl, inr, Option-cases,
}
use golang_frame_practice.Lru.{Cache, back, remove_oldest, store, is_over, evict, add, get}
use golang_frame_practice.Lru.Elements.{view}
use golang_frame_practice.Lru.Invariant.{size, weight, IsValid, touch, get-Got, Got}
use golang_frame_practice.Lru.Evict.{fit, evict-Evicted, remove_oldest-Dropped}
use golang_frame_practice.Lru.Store.{Stored, store-Stored}

module _ {V : Type 0} (value_len : V → ℕ) where
  -- What `Add` does to a valid cache.
  pub record Added (k : Text) (v : V) (c d : Cache V) : Type 0 where
    pub valid : IsValid value_len d
    pub entries : view d.linked_list ≡ (
        if c.max_bytes == 0
        then touch k v (view c.linked_list)
        else fit value_len c.max_bytes (touch k v (view c.linked_list)))
    pub evicted : List (Text × V)
    pub split : touch k v (view c.linked_list) ≡ view d.linked_list ++ evicted
    pub calls : d.calls ≡ (if c.on_evicted then c.calls ++ reverse evicted else c.calls)
    pub max_bytes : d.max_bytes ≡ c.max_bytes
    pub on_evicted : d.on_evicted ≡ c.on_evicted

  -- On a valid cache whose entries and the new one weigh less than 2 ^ 63 bytes, with more fuel than
  -- one beyond the number of entries, `Add` ends, in a valid cache that holds what the abstract list of
  -- entries says: the key in front, and as many of the entries as fit in the limit. The rest is evicted
  -- from the back, and the callback gets each of them.
  pub add-Added :
      (fuel : ℕ) (c : Cache V) (k : Text) (v : V)
      → IsValid value_len c
      → weight value_len (view c.linked_list) + size value_len k v < 2 ^ 63
      → length c.linked_list + 1 < fuel
      → (d : Cache V) × (add value_len fuel c k v ≡ some d) × Added k v c d
  unfolding add
  add-Added fuel c k v h room n =
      let s : Stored value_len k v c (store value_len c k v) =
        store-Stored value_len c k v h room in
      let (d, run, r) =
        evict-Evicted value_len fuel (store value_len c k v) s.valid (omega (arith, s.longer)) in
      (
        d,
        run,
        record {
          valid = r.valid;
          entries = ground (arith, r.entries, s.entries, s.same);
          evicted = r.evicted;
          split = sym s.entries ∙ r.split;
          calls = ground (arith, r.calls, s.same);
          max_bytes = r.max_bytes ∙ s.same.0;
          on_evicted = r.on_evicted ∙ s.same.2;
        },
      )

  -- Under the conditions under which `Add` ends, if the cache has no limit or the new entry alone does
  -- not exceed it, the next `Get` of the key returns the value.
  pub get-add :
      (fuel : ℕ) (c : Cache V) (k : Text) (v : V)
      → IsValid value_len c
      → weight value_len (view c.linked_list) + size value_len k v < 2 ^ 63
      → length c.linked_list + 1 < fuel
      → (c.max_bytes ≡ 0) ⊎ (size value_len k v ≤ c.max_bytes)
      → (d : Cache V) × (add value_len fuel c k v ≡ some d) × ((get d k).1 ≡ some v)
  unfolding touch fit lookup
  get-add fuel c k v h room n fits =
      let (d, run, r) = add-Added fuel c k v h room n in
      let g : Got value_len k d (get d k) = get-Got value_len d k r.valid in
      (d, run, g.result ∙ ground (arith, r.entries))

  -- A cache that is valid but for its limit, which is negative.
  record IsUnlimited (c : Cache V) : Type 0 where
    rest : IsValid value_len (record c { max_bytes = 0 })
    negative : 2 ^ 63 ≤ c.max_bytes
    word : c.max_bytes < 2 ^ 64

  remove_oldest-IsUnlimited :
      (c : Cache V) → IsUnlimited c → IsUnlimited (remove_oldest value_len c)
  unfolding remove_oldest
  remove_oldest-IsUnlimited c h = elim (Option-cases (back c.linked_list)) [
    | inl empty ↦ rw (empty, remove_oldest) h
    | inr (e, b) ↦
        let s = remove_oldest-Dropped value_len (record c { max_bytes = 0 }) h.rest b in
        rw (b, remove_oldest)
          (record {
            rest = rw (b, remove_oldest) at (s.valid);
            negative = h.negative;
            word = h.word;
          })
  ]

  evict_never : (fuel : ℕ) (c : Cache V) → IsUnlimited c → evict value_len fuel c ≡ none
  unfolding evict is_over
  evict_never zero c h = refl
  evict_never (suc fuel) c h = ground (
    arith,
    gt64_negative c.used_bytes c.max_bytes h.rest.small h.negative h.word,
    evict_never fuel (remove_oldest value_len c) (remove_oldest-IsUnlimited c h),
  )

  store-max_bytes :
      (c : Cache V) (k : Text) (v : V)
      → (store value_len (record c { max_bytes = 0 }) k v
          ≡ record (store value_len c k v) { max_bytes = 0 })
        × ((store value_len c k v).max_bytes ≡ c.max_bytes)
  unfolding store
  store-max_bytes c k v = ground arith

  -- On a cache that is valid but for its limit, which is a negative 64-bit integer, and with entries
  -- that weigh less than 2 ^ 63 bytes with the new one, no fuel is enough: the loop of `Add` never ends.
  pub add_never :
      (c : Cache V) (k : Text) (v : V)
      → IsValid value_len (record c { max_bytes = 0 })
      → weight value_len (view c.linked_list) + size value_len k v < 2 ^ 63
      → 2 ^ 63 ≤ c.max_bytes
      → c.max_bytes < 2 ^ 64
      → (fuel : ℕ) → add value_len fuel c k v ≡ none
  unfolding add
  add_never c k v h room neg word fuel =
      let s : Stored value_len k v (record c { max_bytes = 0 })
          (store value_len (record c { max_bytes = 0 }) k v) =
        store-Stored value_len (record c { max_bytes = 0 }) k v h room in
      let e = store-max_bytes c k v in
      evict_never fuel (store value_len c k v)
        (record { rest = rw e.0 at (s.valid); negative = rw e.1 neg; word = rw e.1 word })
