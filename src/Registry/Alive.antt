-- ===== src/Registry/Alive.antt =====
-- SuRPC/registry/registry.go: which addresses `aliveServers` lists, and which it keeps.
use golang_frame_practice.Common.Assoc.{IsMap, delete, lookup-delete_self, lookup-delete_ne}
use golang_frame_practice.Common.{
  ℕ, ◌+◌, ◌<◌, ◌≡◌, ◌↔◌, ◌⊎◌, Option-cases, refl, sym, ◌∙◌, inl, inr, Bool, true, false, ◌||◌, none,
  some, List, [], ◌∷◌, ◌++◌, lookup, if◌then◌else◌, Text, text_dec, arith, ite, All, Bool-cases,
}
use golang_frame_practice.Registry.{
  ServerItem, SuRegistry, is_alive, text_le, sort_insert, sort_strings, sweep, alive_servers,
}

-- Whether an address is listed.
unfoldable pub lists : Text → List Text → Bool
lists a [] = false
lists a (b ∷ l) = ite (text_dec a b) true (lists a l)

-- Whether the test of the loop is passed by the item of an address.
unfoldable pub alive : ℕ → (Text → ℕ) → Text → List (Text × ServerItem) → Bool
alive timeout now a m = elim (lookup text_dec a m) [
  | none ↦ false
  | some item ↦ is_alive timeout (now a) item
]

lists-append : (a : Text) (l m : List Text) → lists a (l ++ m) ≡ (lists a l || lists a m)
unfolding lists
lists-append a [] m = refl
lists-append a (b ∷ l) m = ground (arith, lists-append a l m)

lists-sort_insert : (a b : Text) (l : List Text) → lists a (sort_insert b l) ≡ lists a (b ∷ l)
unfolding lists sort_insert
lists-sort_insert a b [] = refl
lists-sort_insert a b (c ∷ l) = ground (arith, lists-sort_insert a b l)

pub lists-sort_strings : (a : Text) (l : List Text) → lists a (sort_strings l) ≡ lists a l
unfolding sort_strings lists
lists-sort_strings a [] = refl
lists-sort_strings a (b ∷ l) =
    lists-sort_insert a b (sort_strings l) ∙ ground (arith, lists-sort_strings a l)

sweep-lists :
    (timeout : ℕ) (now : Text → ℕ) (m servers : List (Text × ServerItem)) (acc : List Text)
    (a : Text)
    → IsMap text_dec m
    → lists a (sweep timeout now m servers acc).1 ≡ (lists a acc || alive timeout now a m)
unfolding sweep alive lists lookup
sweep-lists timeout now [] servers acc a d = ground arith
sweep-lists timeout now ((b, item) ∷ m) servers acc a d =
    elim (Bool-cases (is_alive timeout (now b) item)) [
      | inl live ↦
          rw (live, sweep)
            (sweep-lists timeout now m servers (acc ++ b ∷ []) a d.1 ∙ elim (text_dec a b) [
              | yes p ↦ rw p (ground (arith, d.0, live, lists-append b acc (b ∷ [])))
              | no p ↦ ground (arith, lists-append a acc (b ∷ []))
            ])
      | inr dead ↦
          rw (dead, sweep)
            (sweep-lists timeout now m (delete text_dec b servers) acc a d.1 ∙ elim (text_dec a b) [
              | yes p ↦ rw p (ground (arith, d.0, dead))
              | no p ↦ ground arith
            ])
    ]

sweep-lookup :
    (timeout : ℕ) (now : Text → ℕ) (m servers : List (Text × ServerItem)) (acc : List Text)
    (a : Text)
    → IsMap text_dec m
    → lookup text_dec a (sweep timeout now m servers acc).0 ≡ (elim (lookup text_dec a m) [
      | none ↦ lookup text_dec a servers
      | some item ↦ if is_alive timeout (now a) item then lookup text_dec a servers else none
    ])
unfolding sweep lookup
sweep-lookup timeout now [] servers acc a d = refl
sweep-lookup timeout now ((b, item) ∷ m) servers acc a d =
    elim (Bool-cases (is_alive timeout (now b) item)) [
      | inl live ↦
          rw (live, sweep)
            (sweep-lookup timeout now m servers (acc ++ b ∷ []) a d.1
              ∙ elim (text_dec a b) [ yes p ↦ ground (arith, d.0, live, p) | no p ↦ ground arith ])
      | inr dead ↦
          rw (dead, sweep)
            (sweep-lookup timeout now m (delete text_dec b servers) acc a d.1
              ∙ elim (text_dec a b) [
                | yes p ↦ ground (arith, d.0, dead, p, lookup-delete_self text_dec b servers)
                | no p ↦ ground (arith, lookup-delete_ne text_dec b a servers p)
              ])
    ]

pub lists-alive :
    (now : Text → ℕ) (s : SuRegistry) (a : Text)
    → IsMap text_dec s.servers
    → lists a (alive_servers now s).1 ≡ alive s.timeout now a s.servers
unfolding alive_servers lists
lists-alive now s a d =
    lists-sort_strings a (sweep s.timeout now s.servers s.servers []).1
    ∙ sweep-lists s.timeout now s.servers s.servers [] a d

-- A server has sent a heartbeat, and its timeout, if there is one, is not over yet at the time.
abbrev pub IsAlive : SuRegistry → ℕ → Text → Type 0
IsAlive s t a =
    (item : ServerItem) × (lookup text_dec a s.servers ≡ some item)
    × ((s.timeout ≡ 0) ⊎ (t < item.start + s.timeout))

alive→IsAlive :
    (now : Text → ℕ) (s : SuRegistry) (a : Text)
    → alive s.timeout now a s.servers ≡ true
    → IsAlive s (now a) a
unfolding alive is_alive
alive→IsAlive now s a e = elim (Option-cases (lookup text_dec a s.servers)) [
  | inl n ↦ absurd (ground (arith, n, e))
  | inr (item, l) ↦ (item, l, ground (arith, l, e))
]

IsAlive→alive :
    (now : Text → ℕ) (s : SuRegistry) (a : Text)
    → IsAlive s (now a) a
    → alive s.timeout now a s.servers ≡ true
unfolding alive is_alive
IsAlive→alive now s a (item, l, inl z) = ground (arith, l, z)
IsAlive→alive now s a (item, l, inr p) = ground (arith, l, p)

-- On a map with distinct keys, `aliveServers` lists an address just if the map has an item for it and
-- there is no timeout, or what the clock says when the loop comes to the address is before the end of
-- the timeout that began with the last heartbeat.
pub lists-alive_servers :
    (now : Text → ℕ) (s : SuRegistry) (a : Text)
    → IsMap text_dec s.servers
    → (lists a (alive_servers now s).1 ≡ true) ↔ IsAlive s (now a) a
lists-alive_servers now s a d = (
  (λ e. alive→IsAlive now s a (sym (lists-alive now s a d) ∙ e)),
  (λ h. lists-alive now s a d ∙ IsAlive→alive now s a h),
)

-- On a map with distinct keys, `aliveServers` keeps the item of every address that is alive as it is,
-- and drops the others.
pub lookup-alive_servers :
    (now : Text → ℕ) (s : SuRegistry) (a : Text)
    → IsMap text_dec s.servers
    → lookup text_dec a (alive_servers now s).0.servers
      ≡ (if alive s.timeout now a s.servers then lookup text_dec a s.servers else none)
unfolding alive_servers alive
lookup-alive_servers now s a d =
    sweep-lookup s.timeout now s.servers s.servers [] a d ∙ ground arith

-- The list is sorted.
abbrev pub IsSorted : List Text → Type 0
IsSorted [] = Unit
IsSorted (x ∷ l) = All (λ y. text_le x y ≡ true) l × IsSorted l

text_le-total : (s t : Text) → text_le s t ≡ false → text_le t s ≡ true
unfolding text_le
text_le-total [] t h = cc
text_le-total (a ∷ s) [] h = refl
text_le-total (a ∷ s) (b ∷ t) h = ground (arith, text_le-total s t)

text_le_trans : (s t u : Text) → text_le s t ≡ true → text_le t u ≡ true → text_le s u ≡ true
unfolding text_le
text_le_trans [] t u h k = refl
text_le_trans (a ∷ s) [] u h k = cc
text_le_trans (a ∷ s) (b ∷ t) [] h k = cc
text_le_trans (a ∷ s) (b ∷ t) (c ∷ u) h k = ground (arith, text_le_trans s t u)

All-text_le :
    (x y : Text) (l : List Text)
    → text_le x y ≡ true
    → All (λ z. text_le y z ≡ true) l
    → All (λ z. text_le x z ≡ true) l
All-text_le x y [] h a = tt
All-text_le x y (z ∷ l) h a = (text_le_trans x y z h a.0, All-text_le x y l h a.1)

All-sort_insert :
    (x y : Text) (l : List Text)
    → text_le y x ≡ true
    → All (λ z. text_le y z ≡ true) l
    → All (λ z. text_le y z ≡ true) (sort_insert x l)
unfolding sort_insert
All-sort_insert x y [] h a = (h, tt)
All-sort_insert x y (z ∷ l) h a = ground (arith, All-sort_insert x y l h a.1)

sort_insert-IsSorted : (x : Text) (l : List Text) → IsSorted l → IsSorted (sort_insert x l)
unfolding sort_insert
sort_insert-IsSorted x [] s = (tt, tt)
sort_insert-IsSorted x (y ∷ l) s = ground (
  arith,
  text_le-total x y,
  λ (p : text_le x y ≡ true). All-text_le x y l p s.0,
  λ (p : text_le y x ≡ true). All-sort_insert x y l p s.0,
  sort_insert-IsSorted x l s.1,
)

pub sort_strings-IsSorted : (l : List Text) → IsSorted (sort_strings l)
unfolding sort_strings
sort_strings-IsSorted [] = tt
sort_strings-IsSorted (x ∷ l) = sort_insert-IsSorted x (sort_strings l) (sort_strings-IsSorted l)
