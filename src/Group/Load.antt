-- ===== src/Group/Load.antt =====
-- CCache/ccache.go: one `Group.Get` on every path: a hit, a local load, a failing getter, a peer, no
-- registered peers, and a key that is still in flight.
use golang_frame_practice.Common.Assoc.{insert, delete}
use golang_frame_practice.Common.Outcome.{Outcome, ok, err, panics, hangs, exits}
use golang_frame_practice.Common.{
  ℕ, ◌+◌, ◌^◌, ◌<◌, ◌≡◌, refl, sym, ap, ◌∙◌, none, some, [], ◌∷◌, ◌++◌, lookup, length, Text,
  text_dec, arith, inl, inr, Option-cases,
}
use golang_frame_practice.Group.{
  ByteView, view_len, clone_bytes, Box, box_add, box_get, PeerPicker, Group, populate_cache,
  get_locally, load, fetch, settle, get,
}
use golang_frame_practice.Group.Cached.{IsCoherent, box_get-IsCoherent, box_add-IsCoherent}

pub clone_bytes_lem : (b : Text) → clone_bytes b ≡ b
unfolding clone_bytes
clone_bytes_lem [] = refl
clone_bytes_lem (x ∷ xs) = ap (◌∷◌ x) (clone_bytes_lem xs)

-- A key that is set and then deleted in an empty map leaves it empty.
pub flight_over : (k : Text) → delete text_dec k (insert text_dec k tt []) ≡ []
unfolding insert delete
flight_over k = ground arith

-- What the caller sees of the getter's result.
abbrev pub reply : Outcome Text → Outcome ByteView
reply (ok b) = ok (record { b = b })
reply (err e) = err e
reply (panics e) = panics e
reply hangs = hangs
reply (exits msg) = exits msg

-- The getter returns, and what it returns can be counted beside `n` bytes.
abbrev pub Returns : ℕ → Text → Outcome Text → Type 0
Returns n k (ok b) = n + (length k + length b) < 2 ^ 63
Returns n k (err e) = Unit
Returns n k (panics e) = ⊥
Returns n k hangs = ⊥
Returns n k (exits msg) = ⊥

module _ (getter : Text → Outcome Text) where
  -- No call is in flight, peers are registered, and the cache is coherent.
  pub record IsLocal (g : Group) (pick : PeerPicker) : Type 0 where
    pub coherent : IsCoherent getter g.main_cache
    pub idle : g.in_flight ≡ []
    pub registered : g.peers ≡ some pick

  pub record Answers (g : Group) (pick : PeerPicker) (k : Text) (r : Group × Outcome ByteView)
      : Type 0 where
    pub answer : r.1 ≡ reply (getter k)
    pub local : IsLocal r.0 pick
    pub same_bytes : r.0.main_cache.cache_bytes ≡ g.main_cache.cache_bytes

module _ (getter : Text → Outcome Text) (marshal : Text → Outcome Text) where
  pub get_locally-ok :
      (g : Group) (k b : Text)
      → IsCoherent getter g.main_cache
      → getter k ≡ ok b
      → g.main_cache.cache_bytes + (length k + length b) < 2 ^ 63
      → (c : Box) × (get_locally getter marshal g k
          ≡ (record g { main_cache = c; loads = g.loads ++ k ∷ [] }, ok (record { b = b })))
        × IsCoherent getter c
        × (c.cache_bytes ≡ g.main_cache.cache_bytes)
        × (box_add g.main_cache k (record { b = b }) ≡ some c)
  unfolding get_locally populate_cache view_len
  get_locally-ok g k b h e room =
      let (c, run, held, same) =
        box_add-IsCoherent getter g.main_cache k (record { b = b }) h e room in
      (c, ground (arith, e, clone_bytes_lem b, run), held, same, run)

  pub get_hit :
      (g : Group) (k : Text) (v : ByteView)
      → g.in_flight ≡ []
      → (box_get g.main_cache k).1 ≡ some v
      → get getter marshal g k
        ≡ (record g { main_cache = (box_get g.main_cache k).0; in_flight = [] }, ok v)
  unfolding get fetch settle lookup
  get_hit g k v idle hit = ground (arith, flight_over k)

  abbrev pub missed : Group → Text → Group
  missed g k = record g {
    main_cache = (box_get g.main_cache k).0;
    in_flight = insert text_dec k tt [];
  }

  pub get_miss :
      (g : Group) (k : Text)
      → g.in_flight ≡ []
      → (box_get g.main_cache k).1 ≡ none
      → get getter marshal g k ≡ settle getter marshal k (load getter marshal (missed g k) k)
  unfolding get fetch lookup
  get_miss g k idle miss = ground arith

  pub load_local :
      (g : Group) (pick : PeerPicker) (k : Text)
      → g.peers ≡ some pick
      → pick k ≡ none
      → load getter marshal g k ≡ get_locally getter marshal g k
  unfolding load
  load_local g pick k e n = ground arith

  hit-Answers :
      (g : Group) (pick : PeerPicker) (k : Text) (v : ByteView)
      → IsLocal getter g pick
      → (box_get g.main_cache k).1 ≡ some v
      → Answers getter g pick k (get getter marshal g k)
  hit-Answers g pick k v h hit =
      let (held, found, same) = box_get-IsCoherent getter g.main_cache k h.coherent in
      let e : getter k ≡ ok v.b = h.coherent.source k v (sym found ∙ hit) in
      rw (get_hit g k v h.idle hit) (record {
        answer = rw e;
        local = record { coherent = held; idle = refl; registered = h.registered };
        same_bytes = same;
      })

  pub missed_run :
      (g : Group) (pick : PeerPicker) (k : Text)
      → IsLocal getter g pick
      → pick k ≡ none
      → (box_get g.main_cache k).1 ≡ none
      → {r : Group × Outcome ByteView} → get_locally getter marshal (missed g k) k ≡ r
      → get getter marshal g k ≡ settle getter marshal k r
  missed_run g pick k h none_picked miss run =
      get_miss g k h.idle miss
      ∙ ap (settle getter marshal k) (load_local (missed g k) pick k h.registered none_picked ∙ run)

  get_locally_err :
      (g : Group) (k x : Text)
      → getter k ≡ err x
      → get_locally getter marshal g k ≡ (record g { loads = g.loads ++ k ∷ [] }, err x)
  unfolding get_locally
  get_locally_err g k x e = ground arith

  miss-Answers :
      (g : Group) (pick : PeerPicker) (k : Text) (o : Outcome Text)
      → IsLocal getter g pick
      → pick k ≡ none
      → (box_get g.main_cache k).1 ≡ none
      → getter k ≡ o
      → Returns g.main_cache.cache_bytes k o
      → Answers getter g pick k (get getter marshal g k)
  unfolding settle
  miss-Answers g pick k (ok b) h none_picked miss e room =
      let (held, _, same) = box_get-IsCoherent getter g.main_cache k h.coherent in
      let (c, run, kept, bytes, _) = get_locally-ok (missed g k) k b held e (rw same room) in
      rw (missed_run g pick k h none_picked miss run) (record {
        answer = rw e;
        local = record { coherent = kept; idle = flight_over k; registered = h.registered };
        same_bytes = bytes ∙ same;
      })
  miss-Answers g pick k (err x) h none_picked miss e room =
      let (held, _, same) = box_get-IsCoherent getter g.main_cache k h.coherent in
      rw (missed_run g pick k h none_picked miss (get_locally_err (missed g k) k x e)) (record {
        answer = rw e;
        local = record { coherent = held; idle = flight_over k; registered = h.registered };
        same_bytes = same;
      })
  miss-Answers g pick k (panics x) h none_picked miss e room = absurd room
  miss-Answers g pick k hangs h none_picked miss e room = absurd room
  miss-Answers g pick k (exits msg) h none_picked miss e room = absurd room

  -- With no peer picked, `Get` answers what the getter answers, hit or miss.
  pub get-Answers :
      (g : Group) (pick : PeerPicker) (k : Text)
      → IsLocal getter g pick
      → pick k ≡ none
      → Returns g.main_cache.cache_bytes k (getter k)
      → Answers getter g pick k (get getter marshal g k)
  get-Answers g pick k h none_picked room = elim (Option-cases (box_get g.main_cache k).1) [
    | inl miss ↦ miss-Answers g pick k (getter k) h none_picked miss refl room
    | inr (v, hit) ↦ hit-Answers g pick k v h hit
  ]
