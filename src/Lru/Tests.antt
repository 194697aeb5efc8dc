-- ===== src/Lru/Tests.antt =====
-- Tests of the LRU cache on small inputs, and its theorems at them.
use golang_frame_practice.Common.Assoc.{insert, delete}
use golang_frame_practice.Common.Int64.{add64, sub64, gt64}
use golang_frame_practice.Common.{
  ◌≡◌, refl, ◌^◌, ◌-◌, true, Option, none, some, List, [], ◌∷◌, lookup, length, Text, text,
  text_dec, ℕ_discrete, arith,
}
use golang_frame_practice.Lru.{
  Cache, new_cache, find_id, remove_id, move_to_front, back, set_value, remove_oldest, store,
  is_over, evict, add, get,
}
use golang_frame_practice.Lru.Add.{Added, add-Added, add_never}
use golang_frame_practice.Lru.Elements.{id_of}
use golang_frame_practice.Lru.Runs.{Op, adds, gets, run, Run, run-new_cache}
use golang_frame_practice.Lru.Invariant.{IsValid}

program : Unit {0}
unfolding new_cache find_id remove_id move_to_front back set_value remove_oldest store is_over evict
    add get insert delete add64 sub64 gt64 lookup text_dec ℕ_discrete
program = tt

-- Two entries of three bytes each; "b" is the more recent one.
abbrev two : Cache Text
two = record {
  used_bytes = 6;
  max_bytes = 8;
  cache = (text "a", 0) ∷ (text "b", 1) ∷ [];
  linked_list =
      record { id = 1; key = text "b"; value = text "yy" }
      ∷ record { id = 0; key = text "a"; value = text "xx" }
      ∷ [];
  on_evicted = true;
  calls = [];
  fresh = 2;
}

two-IsValid : IsValid length two
unfolding lookup id_of find_id
two-IsValid = record {
  index = λ k. ground arith;
  distinct = ground arith;
  below = omega arith;
  counted = refl;
  small = omega arith;
  limit = omega arith;
}

-- A third entry evicts "a", and the callback is told.
add_evicts :
    add length 4 two (text "c") (text "zz")
    ≡ some (record two {
      cache = (text "b", 1) ∷ (text "c", 2) ∷ [];
      linked_list =
          record { id = 2; key = text "c"; value = text "zz" }
          ∷ record { id = 1; key = text "b"; value = text "yy" }
          ∷ [];
      calls = (text "a", text "xx") ∷ [];
      fresh = 3;
    })
unfolding program
add_evicts = refl

add-Added_example :
    (d : Cache Text) × (add length 4 two (text "c") (text "zz") ≡ some d)
    × Added length (text "c") (text "zz") two d
add-Added_example =
    add-Added length 4 two (text "c") (text "zz") two-IsValid (omega arith) (omega arith)

-- -1 as the limit.
abbrev negative : Cache Text
negative = record two { max_bytes = 2 ^ 64 - 1 }

negative-IsValid : IsValid length (record negative { max_bytes = 0 })
unfolding lookup id_of find_id
negative-IsValid = record {
  index = λ k. ground arith;
  distinct = ground arith;
  below = omega arith;
  counted = refl;
  small = omega arith;
  limit = omega arith;
}

add_never_example : add length 9 negative (text "c") (text "zz") ≡ none
add_never_example =
    add_never length negative (text "c") (text "zz") negative-IsValid (omega arith) (omega arith)
      (omega arith) 9

-- The third entry evicts "b", since "a" has been read.
abbrev ops : List (Op Text)
ops =
    adds (text "a") (text "xx")
    ∷ adds (text "b") (text "yy")
    ∷ gets (text "a")
    ∷ adds (text "c") (text "zz")
    ∷ gets (text "b")
    ∷ []

run-new_cache_example :
    (d : Cache Text) × (rs : List (Option Text)) × (run length 7 (new_cache 8 true) ops
      ≡ some (d, rs))
    × Run length 8 [] ops d rs
run-new_cache_example =
    run-new_cache length 7 8 true ops (omega arith) (omega arith)
      (omega arith, (omega arith, (tt, (omega arith, (tt, tt))))) (omega arith)
