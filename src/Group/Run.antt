-- ===== src/Group/Run.antt =====
-- CCache/ccache.go: what callers of a group can rely on, and where the code lets them down.
use mathlib.Core.Path.{ap₂}
use golang_frame_practice.Common.Assoc.{insert, delete}
use golang_frame_practice.Common.Outcome.{Outcome, ok}
use golang_frame_practice.Common.{
  ℕ, ◌+◌, ◌^◌, ◌≤◌, ◌<◌, ◌≡◌, refl, sym, ◌∙◌, none, some, List, [], ◌∷◌, ◌++◌, map, length, Text,
  text_dec, arith, inl, inr, Option-cases, All,
}
use golang_frame_practice.Group.{
  ByteView, view_len, opened, box_get, PeerPicker, Group, settle, get, new_group, register_peers,
}
use golang_frame_practice.Group.Cached.{
  box_get-IsCoherent, new_cache-Holds, box_get-box_get, box_get-box_add,
}
use golang_frame_practice.Group.Load.{
  IsLocal, reply, Returns, Answers, get-Answers, get_hit, missed, get_locally-ok, missed_run,
  flight_over,
}

module _ (getter : Text → Outcome Text) (marshal : Text → Outcome Text) where
  -- `Get` for one key after another.
  unfoldable pub run : Group → List Text → List (Outcome ByteView)
  run g [] = []
  run g (k ∷ keys) = let (g', r) = get getter marshal g k in r ∷ run g' keys

  -- A group that `NewGroup` made with a positive limit, with peers registered.
  pub new_group-IsLocal :
      (name : Text) (n : ℕ) (pick : PeerPicker)
      → 0 < n
      → n < 2 ^ 63
      → IsLocal getter (register_peers (new_group name n) pick).0 pick
  unfolding new_group register_peers opened
  new_group-IsLocal name n pick p h = record {
    coherent = new_cache-Holds getter n p h;
    idle = refl;
    registered = refl;
  }

  run-Answers :
      (g : Group) (pick : PeerPicker) (n : ℕ) (keys : List Text)
      → IsLocal getter g pick
      → g.main_cache.cache_bytes ≡ n
      → All (λ k. (pick k ≡ none) × Returns n k (getter k)) keys
      → run g keys ≡ map (λ k. reply (getter k)) keys
  unfolding run
  run-Answers g pick n [] h e a = refl
  run-Answers g pick n (k ∷ keys) h e a =
      let r : Answers getter g pick k (get getter marshal g k) =
        get-Answers getter marshal g pick k h a.0.0 (rw e a.0.1) in
      ap₂ ◌∷◌ r.answer
        (run-Answers (get getter marshal g k).0 pick n keys r.local (r.same_bytes ∙ e) a.1)

  -- A group made with a positive limit below 2 ^ 63, whose peers own none of the keys, answers any
  -- sequence of them like its getter, whatever is cached or evicted on the way, if the getter returns
  -- a value or an error for each key, with room for it in 64-bit integers.
  pub run-eq-getter :
      (name : Text) (n : ℕ) (pick : PeerPicker) (keys : List Text)
      → 0 < n
      → n < 2 ^ 63
      → All (λ k. (pick k ≡ none) × Returns n k (getter k)) keys
      → run (register_peers (new_group name n) pick).0 keys ≡ map (λ k. reply (getter k)) keys
  unfolding register_peers new_group
  run-eq-getter name n pick keys p h a =
      run-Answers (register_peers (new_group name n) pick).0 pick n keys
        (new_group-IsLocal name n pick p h) (ground arith) a

  get_cached :
      (g : Group) (k : Text) (v : ByteView)
      → g.in_flight ≡ []
      → (box_get g.main_cache k).1 ≡ some v
      → ((get getter marshal g k).1 ≡ ok v) × ((get getter marshal g k).0.loads ≡ g.loads)
  get_cached g k v idle hit = rw (get_hit getter marshal g k v idle hit) (refl, refl)

  -- In a coherent group where no peer owns the key, if the getter returns a value that fits in the
  -- cache, two calls of `Get` in a row end with the value, and the second does not call the getter.
  pub get-get :
      (g : Group) (pick : PeerPicker) (k b : Text)
      → IsLocal getter g pick
      → pick k ≡ none
      → getter k ≡ ok b
      → g.main_cache.cache_bytes + (length k + length b) < 2 ^ 63
      → length k + length b ≤ g.main_cache.cache_bytes
      → ((get getter marshal (get getter marshal g k).0 k).1 ≡ ok (record { b = b }))
        × ((get getter marshal (get getter marshal g k).0 k).0.loads
            ≡ (get getter marshal g k).0.loads)
  unfolding settle view_len
  get-get g pick k b h none_picked e room fits = elim (Option-cases (box_get g.main_cache k).1) [
    | inl miss ↦
        let (held, _, same) = box_get-IsCoherent getter g.main_cache k h.coherent in
        let (c, done, kept, bytes, added) =
          get_locally-ok getter marshal (missed getter marshal g k) k b held e (rw same room) in
        let v : ByteView = record { b = b } in
        let read : (box_get c k).1 ≡ some v =
          box_get-box_add getter (box_get g.main_cache k).0 c k v held (rw same room) (rw same fits)
            added in
        rw (missed_run getter marshal g pick k h none_picked miss done, settle)
          (get_cached
            (record g {
              main_cache = c;
              in_flight = delete text_dec k (insert text_dec k tt []);
              loads = g.loads ++ k ∷ [];
            })
            k v (flight_over k) read)
    | inr (v, hit) ↦
        let g' = record g { main_cache = (box_get g.main_cache k).0; in_flight = [] } in
        let (held, found, same) = box_get-IsCoherent getter g.main_cache k h.coherent in
        let value : ok b ≡ ok v.b = sym e ∙ h.coherent.source k v (sym found ∙ hit) in
        rw (get_hit getter marshal g k v h.idle hit) (
          let r = get_cached g' k v refl (box_get-box_get getter g.main_cache k h.coherent ∙ hit) in
          (r.0 ∙ ground (arith, value), r.1))
  ]
