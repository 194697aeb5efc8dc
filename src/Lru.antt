-- ===== src/Lru.antt =====
-- CCache/lru/lru.go: the least-recently-used cache. `container/list` is a list of elements, front
-- first; an element carries its pointer as a number, and the map from keys holds pointers.
pub mod Elements
pub mod Invariant
pub mod Evict
pub mod Store
pub mod Add
pub mod Runs
mod Tests
use golang_frame_practice.Common.Assoc.{insert, delete}
use golang_frame_practice.Common.Int64.{add64, sub64, gt64}
use golang_frame_practice.Common.{
  ℕ, zero, suc, ◌+◌, ◌==◌, Bool, true, false, not, ◌&&◌, Option, none, some, List, [], ◌∷◌, ◌++◌,
  lookup, ite, ℕ_discrete, length, if◌then◌else◌, Text, text_dec,
}

-- An element with the entry that its Value points to.
pub record Element (V : Type 0) : Type 0 where
  pub id : ℕ
  pub key : Text
  pub value : V

-- `on_evicted` says that the callback is not nil, and `calls` is what it has been called with.
-- `fresh` is a pointer that no element has had.
pub record Cache (V : Type 0) : Type 0 where
  pub used_bytes : ℕ
  pub max_bytes : ℕ
  pub cache : List (Text × ℕ)
  pub linked_list : List (Element V)
  pub on_evicted : Bool
  pub calls : List (Text × V)
  pub fresh : ℕ

-- `New`
unfoldable pub new_cache : {V : Type 0} → ℕ → Bool → Cache V
new_cache max_bytes on_evicted = record {
  used_bytes = 0;
  max_bytes = max_bytes;
  cache = [];
  linked_list = [];
  on_evicted = on_evicted;
  calls = [];
  fresh = 0;
}

module _ {V : Type 0} where
  -- What a pointer points to, if that is in the list.
  unfoldable pub find_id : ℕ → List (Element V) → Option (Element V)
  find_id i [] = none
  find_id i (e ∷ l) = ite (ℕ_discrete e.id i) (some e) (find_id i l)

  -- `List.Remove`
  unfoldable pub remove_id : ℕ → List (Element V) → List (Element V)
  remove_id i [] = []
  remove_id i (e ∷ l) = ite (ℕ_discrete e.id i) l (e ∷ remove_id i l)

  -- `List.MoveToFront`
  unfoldable pub move_to_front : ℕ → List (Element V) → List (Element V)
  move_to_front i l = elim (find_id i l) [ none ↦ l | some e ↦ e ∷ remove_id i l ]

  -- `List.Back`
  unfoldable pub back : List (Element V) → Option (Element V)
  back [] = none
  back (e ∷ []) = some e
  back (e ∷ f ∷ l) = back (f ∷ l)

  -- `kv.value = value` through the pointer
  unfoldable pub set_value : ℕ → V → List (Element V) → List (Element V)
  set_value i v [] = []
  set_value i v (e ∷ l) = ite (ℕ_discrete e.id i) (record e { value = v } ∷ l) (e ∷ set_value i v l)

  unfoldable pub get : Cache V → Text → Cache V × Option V
  get c key = elim (lookup text_dec key c.cache) [
    | none ↦ (c, none)
    | some ele ↦
        let l = move_to_front ele c.linked_list in
        (
          record c { linked_list = l },
          elim (find_id ele l) [ none ↦ none | some kv ↦ some kv.value ],
        )
  ]

  unfoldable pub len : Cache V → ℕ
  len c = length c.linked_list

  -- The test of the loop in `Add`.
  unfoldable pub is_over : Cache V → Bool
  is_over c = not (c.max_bytes == 0) && gt64 c.used_bytes c.max_bytes

-- `value_len` is the method `Len` of the interface `Value`.
module _ {V : Type 0} (value_len : V → ℕ) where
  unfoldable pub remove_oldest : Cache V → Cache V
  remove_oldest c = elim (back c.linked_list) [
    | none ↦ c
    | some ele ↦ record c {
      linked_list = remove_id ele.id c.linked_list;
      cache = delete text_dec ele.key c.cache;
      used_bytes = sub64 c.used_bytes (add64 (length ele.key) (value_len ele.value));
      calls = if c.on_evicted then c.calls ++ (ele.key, ele.value) ∷ [] else c.calls;
    }
  ]

  -- The first half of `Add`: a new element at the front, or the old one moved and changed.
  unfoldable pub store : Cache V → Text → V → Cache V
  store c key value = elim (lookup text_dec key c.cache) [
    | none ↦ record c {
      linked_list = record { id = c.fresh; key = key; value = value } ∷ c.linked_list;
      used_bytes = add64 c.used_bytes (add64 (length key) (value_len value));
      cache = insert text_dec key c.fresh c.cache;
      fresh = c.fresh + 1;
    }
    | some ele ↦ elim (find_id ele c.linked_list) [
      | none ↦ c
      | some kv ↦ record c {
        linked_list = set_value ele value (move_to_front ele c.linked_list);
        used_bytes = add64 c.used_bytes (sub64 (value_len value) (value_len kv.value));
      }
    ]
  ]

  -- The loop in `Add`. `none` means that the fuel ran out.
  unfoldable pub evict : ℕ → Cache V → Option (Cache V)
  evict zero c = none
  evict (suc fuel) c = elim (is_over c) [ true ↦ evict fuel (remove_oldest c) | false ↦ some c ]

  unfoldable pub add : ℕ → Cache V → Text → V → Option (Cache V)
  add fuel c key value = evict fuel (store c key value)
