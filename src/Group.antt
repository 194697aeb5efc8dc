-- ===== src/Group.antt =====
-- CCache/cache.go, ccache.go, byteview.go and singleflight/singleflight.go as one caller at a time
-- sees them: the cache with its lock, the group, and the loading of a missing key. The mutexes are
-- not modelled here: a step of this file is one critical section or more of a single goroutine.
pub mod Groups
pub mod Cached
pub mod Load
pub mod Run
pub mod Peers
mod Tests
use golang_frame_practice.Common.Assoc.{insert, delete}
use golang_frame_practice.Common.Outcome.{Outcome, ok, err, panics, hangs, exits}
use golang_frame_practice.Common.{
  ℕ, ◌+◌, Bool, false, Option, none, some, List, [], ◌∷◌, ◌++◌, lookup, length, Text, text,
  text_dec,
}
use golang_frame_practice.Lru
use golang_frame_practice.Lru.{Cache}

-- A `ByteView` is its bytes. `cloneBytes` copies them, so a caller cannot change what is cached.
pub record ByteView : Type 0 where
  pub b : Text

-- `ByteView.Len`
unfoldable pub view_len : ByteView → ℕ
view_len v = length v.b

-- `make` and `copy`: every byte, in order.
unfoldable pub clone_bytes : Text → Text
clone_bytes [] = []
clone_bytes (x ∷ xs) = x ∷ clone_bytes xs

-- `ByteView.ByteSlice`
unfoldable pub byte_slice : ByteView → Text
byte_slice v = clone_bytes v.b

-- The struct `cache`: the LRU cache is nil until the first `add`.
pub record Box : Type 0 where
  pub lru : Option (Cache ByteView)
  pub cache_bytes : ℕ

-- What `lru.Cache.Add` is run on: `if c.lru == nil { c.lru = lru.New(c.cacheBytes, nil) }`.
unfoldable pub opened : Box → Cache ByteView
opened c = elim c.lru [ none ↦ Lru.new_cache c.cache_bytes false | some l ↦ l ]

-- `cache.add`, with fuel for the eviction loop; `none` means that the loop does not end.
unfoldable pub box_add : Box → Text → ByteView → Option Box
box_add c key value = elim (Lru.add view_len (Lru.len (opened c) + 2) (opened c) key value) [
  | none ↦ none
  | some l ↦ some (record c { lru = some l })
]

-- `cache.get`
unfoldable pub box_get : Box → Text → Box × Option ByteView
box_get c key = elim c.lru [
  | none ↦ (c, none)
  | some l ↦ let (l', v) = Lru.get l key in (record c { lru = some l' }, v)
]

-- `PeerGetter.Get` at a group and a key: the value of the response.
abbrev pub PeerGetter : Type 0
PeerGetter = Text → Text → Outcome Text

-- `PeerPicker.PickPeer`: `none` is a false second result.
abbrev pub PeerPicker : Type 0
PeerPicker = Text → Option PeerGetter

-- The struct `Group`. `in_flight` are the keys of the map of `singleflight.Group`; `loads` records
-- the keys that the getter has been called with.
pub record Group : Type 0 where
  pub name : Text
  pub main_cache : Box
  pub peers : Option PeerPicker
  pub in_flight : List (Text × Unit {0})
  pub loads : List Text

-- `NewGroup` after its check of the getter.
unfoldable pub new_group : Text → ℕ → Group
new_group name cache_bytes = record {
  name = name;
  main_cache = record { lru = none; cache_bytes = cache_bytes };
  peers = none;
  in_flight = [];
  loads = [];
}

-- `Group.RegisterPeers`
unfoldable pub register_peers : Group → PeerPicker → Group × Outcome (Unit {0})
register_peers g peers = elim g.peers [
  | none ↦ (record g { peers = some peers }, ok tt)
  | some _ ↦ (g, panics (text "register peers called more than once"))
]

-- `getter` is the callback `Getter.Get`; `marshal` is `proto.Marshal` of a response with the value.
module _ (getter : Text → Outcome Text) (marshal : Text → Outcome Text) where
  -- `Group.populateCache`
  unfoldable pub populate_cache : Group → Text → ByteView → Option Group
  populate_cache g key value = elim (box_add g.main_cache key value) [
    | none ↦ none
    | some c ↦ some (record g { main_cache = c })
  ]

  -- `Group.getLocally`
  unfoldable pub get_locally : Group → Text → Group × Outcome ByteView
  get_locally g key =
      let g' = record g { loads = g.loads ++ key ∷ [] } in
      elim (getter key) [
        | err e ↦ (g', err e)
        | panics e ↦ (g', panics e)
        | hangs ↦ (g', hangs)
        | exits e ↦ (g', exits e)
        | ok b ↦
            let value : ByteView = record { b = clone_bytes b } in
            elim (populate_cache g' key value) [ none ↦ (g', hangs) | some g'' ↦ (g'', ok value) ]
      ]

  -- `Group.getFromPeer`
  unfoldable pub get_from_peer : Group → PeerGetter → Text → Outcome ByteView
  get_from_peer g peer key = elim (peer g.name key) [
    | err e ↦ err e
    | panics e ↦ panics e
    | hangs ↦ hangs
    | exits e ↦ exits e
    | ok value ↦ elim (marshal value) [
      | err e ↦ err (text "marshal proto msg err: " ++ e)
      | panics e ↦ panics e
      | hangs ↦ hangs
      | exits e ↦ exits e
      | ok bytes ↦ ok (record { b = bytes })
    ]
  ]

  -- `Group.load`: a call through the nil interface panics.
  unfoldable pub load : Group → Text → Group × Outcome ByteView
  load g key = elim g.peers [
    | none ↦ (g, panics (text "nil pointer dereference"))
    | some pick ↦ elim (pick key) [
      | some peer ↦ (g, get_from_peer g peer key)
      | none ↦ get_locally g key
    ]
  ]

  -- The function that `Group.Get` hands to `Do`.
  unfoldable pub fetch : Group → Text → Group × Outcome ByteView
  fetch g key =
      let (c, hit) = box_get g.main_cache key in
      let g' = record g { main_cache = c } in elim hit [ some v ↦ (g', ok v) | none ↦ load g' key ]

  -- After `fn` has returned, `Do` deletes the key; after a panic or without an end it does not.
  unfoldable pub settle : Text → Group × Outcome ByteView → Group × Outcome ByteView
  settle key (g, ok v) = (record g { in_flight = delete text_dec key g.in_flight }, ok v)
  settle key (g, err e) = (record g { in_flight = delete text_dec key g.in_flight }, err e)
  settle key (g, panics e) = (g, panics e)
  settle key (g, hangs) = (g, hangs)
  settle key (g, exits msg) = (g, exits msg)

  -- `Group.Get` with `singleflight.Group.Do` around it, while no other goroutine runs: a key that is
  -- in the map has a call that nobody will end, so `wg.Wait` waits for ever.
  unfoldable pub get : Group → Text → Group × Outcome ByteView
  get g key = elim (lookup text_dec key g.in_flight) [
    | some _ ↦ (g, hangs)
    | none ↦ settle key (fetch (record g { in_flight = insert text_dec key tt g.in_flight }) key)
  ]
