-- ===== src/Group/Peers.antt =====
-- CCache/ccache.go: `Group.Get` for a key that a peer owns, and before peers are registered.
use golang_frame_practice.Common.Assoc.{lookup-insert_self}
use golang_frame_practice.Common.Outcome.{Outcome, ok, panics, hangs}
use golang_frame_practice.Common.{
  ◌≡◌, refl, sym, ap, ◌∙◌, ◌≢◌, none, some, [], Text, text, text_dec, arith,
}
use golang_frame_practice.Group.{
  ByteView, box_get, PeerGetter, PeerPicker, Group, get_from_peer, load, settle, get,
}
use golang_frame_practice.Group.Load.{reply, get_miss, missed}

module _ (getter : Text → Outcome Text) (marshal : Text → Outcome Text) where
  load_peer :
      (g : Group) (pick : PeerPicker) (peer : PeerGetter) (k : Text)
      → g.peers ≡ some pick
      → pick k ≡ some peer
      → load getter marshal g k ≡ (g, get_from_peer getter marshal g peer k)
  unfolding load
  load_peer g pick peer k e p = ground arith

  get_peer :
      (g : Group) (pick : PeerPicker) (peer : PeerGetter) (k : Text)
      → g.in_flight ≡ []
      → (box_get g.main_cache k).1 ≡ none
      → g.peers ≡ some pick
      → pick k ≡ some peer
      → get getter marshal g k
        ≡ settle getter marshal k (
          missed getter marshal g k,
          get_from_peer getter marshal (missed getter marshal g k) peer k,
        )
  get_peer g pick peer k idle miss e p =
      get_miss getter marshal g k idle miss
      ∙ ap (settle getter marshal k) (load_peer (missed getter marshal g k) pick peer k e p)

  peer_bytes :
      (g : Group) (peer : PeerGetter) (k : Text) {v : ByteView}
      → get_from_peer getter marshal g peer k ≡ ok v
      → (value : Text) × (peer g.name k ≡ ok value) × (marshal value ≡ ok v.b)
  unfolding get_from_peer
  peer_bytes g peer k h = ground arith

  settle_cache :
      (k : Text) (g : Group) (o : Outcome ByteView)
      → ((settle getter marshal k (g, o)).1 ≡ o)
        × ((settle getter marshal k (g, o)).0.main_cache ≡ g.main_cache)
        × ((settle getter marshal k (g, o)).0.loads ≡ g.loads)
  unfolding settle
  settle_cache k g o = ground arith

  served_bytes :
      (g : Group) (peer : PeerGetter) (k value bytes : Text)
      → peer g.name k ≡ ok value
      → marshal value ≡ ok bytes
      → get_from_peer getter marshal g peer k ≡ ok (record { b = bytes })
  unfolding get_from_peer
  served_bytes g peer k value bytes e m = ground arith

  -- In a group with no call in flight, a key that is not in the cache and that a peer owns is
  -- answered by the peer: it is neither loaded nor cached here, and if the peer sends a value that
  -- `proto.Marshal` can write, the caller gets the bytes of the message in place of the value.
  pub get-peer :
      (g : Group) (pick : PeerPicker) (peer : PeerGetter) (k value bytes : Text)
      → g.in_flight ≡ []
      → (box_get g.main_cache k).1 ≡ none
      → g.peers ≡ some pick
      → pick k ≡ some peer
      → peer g.name k ≡ ok value
      → marshal value ≡ ok bytes
      → ((get getter marshal g k).1 ≡ ok (record { b = bytes }))
        × ((get getter marshal g k).0.loads ≡ g.loads)
        × ((get getter marshal g k).0.main_cache ≡ (box_get g.main_cache k).0)
  get-peer g pick peer k value bytes idle miss e p v m =
      let s =
        settle_cache k (missed getter marshal g k)
          (get_from_peer getter marshal (missed getter marshal g k) peer k) in
      rw (get_peer g pick peer k idle miss e p)
        (s.0 ∙ served_bytes (missed getter marshal g k) peer k value bytes v m, s.2, s.1)

  -- In a group with no call in flight, for a key that is not in the cache and that a peer owns: if
  -- the peer sends the getter's value, and the message of that value is not the value itself, then
  -- the answer is not the getter's.
  pub get-peer_ne :
      (g : Group) (pick : PeerPicker) (peer : PeerGetter) (k b : Text)
      → g.in_flight ≡ []
      → (box_get g.main_cache k).1 ≡ none
      → g.peers ≡ some pick
      → pick k ≡ some peer
      → getter k ≡ ok b
      → peer g.name k ≡ ok b
      → marshal b ≢ ok b
      → (get getter marshal g k).1 ≢ reply (getter k)
  get-peer_ne g pick peer k b idle miss e p own served differs same =
      let s =
        settle_cache k (missed getter marshal g k)
          (get_from_peer getter marshal (missed getter marshal g k) peer k) in
      let (value, v_eq, bytes) = peer_bytes (missed getter marshal g k) peer k (
        sym s.0
        ∙ ap (λ r. r.1) (sym (get_peer g pick peer k idle miss e p))
        ∙ same
        ∙ ap reply own) in
      differs (ground arith)

  load_unregistered :
      (g : Group) (k : Text)
      → g.peers ≡ none
      → load getter marshal g k ≡ (g, panics (text "nil pointer dereference"))
  unfolding load
  load_unregistered g k e = ground arith

  -- A key that stays in the map of `Do` blocks every later call.
  get_in_flight :
      (g : Group) (k : Text) → (get getter marshal (missed getter marshal g k) k).1 ≡ hangs
  unfolding get
  get_in_flight g k = rw (lookup-insert_self {V = Unit {0}} text_dec k tt [], get)

  -- In a group with no call in flight and no registered peers, `Get` of a key that is not in the cache
  -- panics, and as `Do` then leaves the key in its map, the next `Get` of the key never returns.
  pub get-unregistered :
      (g : Group) (k : Text)
      → g.in_flight ≡ []
      → (box_get g.main_cache k).1 ≡ none
      → g.peers ≡ none
      → ((get getter marshal g k).1 ≡ panics (text "nil pointer dereference"))
        × ((get getter marshal (get getter marshal g k).0 k).1 ≡ hangs)
  unfolding settle
  get-unregistered g k idle miss e =
      rw
        (get_miss getter marshal g k idle miss
          ∙ ap (settle getter marshal k) (load_unregistered (missed getter marshal g k) k e))
        (refl, get_in_flight g k)
