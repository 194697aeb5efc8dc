-- ===== src/Pool/Pick.antt =====
-- CCache/http.go: which peer is picked after `Set`.
use golang_frame_practice.Common.Assoc.{lookup-insert_self, lookup-insert}
use golang_frame_practice.Common.{
  ◌<◌, ◌^◌, ◌≡◌, ◌≢◌, refl, sym, ap, ◌∙◌, Option, none, some, List, [], ◌∷◌, ◌++◌, lookup, Text,
  text_dec, arith, All,
}
use golang_frame_practice.ConsistentHash.{Hash, Map, new_map, add, add_all, add_replicas, sort_ints}
use golang_frame_practice.ConsistentHash.Owner.{IsRing, add-IsRing, new_map-IsPlaced, get-Owned}
use golang_frame_practice.Pool.{
  HttpGetter, HttpPool, HttpPoolOptions, new_http_pool_with_opts, set_getters, set, pick_peer,
}
use golang_frame_practice.ConsistentHash

-- The ring that `Set` makes.
abbrev pub ring : Hash → HttpPool → List Text → Map
ring checksum p peers = add (new_map checksum p.opts.replicas none) peers

-- The map has the getter of a node.
abbrev Reaches : Text → List (Text × HttpGetter) → Text → Type 0
Reaches base_path m node = lookup text_dec node m ≡ some (record { base_url = node ++ base_path })

set_getters-kept :
    (base_path : Text) (peers : List Text) (m : List (Text × HttpGetter)) (node : Text)
    → Reaches base_path m node
    → Reaches base_path (set_getters base_path peers m) node
unfolding set_getters
set_getters-kept base_path [] m node h = h
set_getters-kept base_path (peer ∷ peers) m node h =
    set_getters-kept base_path peers _ node (elim (text_dec node peer) [
      | yes p ↦
          ground
            (arith, p, lookup-insert text_dec peer node (record { base_url = peer ++ base_path }) m)
      | no p ↦ ground (
        arith,
        p,
        h,
        lookup-insert text_dec peer node (record { base_url = peer ++ base_path }) m,
      )
    ])

set_getters-Reaches :
    (base_path : Text) (peers : List Text) (m : List (Text × HttpGetter))
    → All (Reaches base_path (set_getters base_path peers m)) peers
unfolding set_getters
set_getters-Reaches base_path [] m = tt
set_getters-Reaches base_path (peer ∷ peers) m = (
  set_getters-kept base_path peers _ peer
      (lookup-insert_self text_dec peer (record { base_url = peer ++ base_path }) m),
  set_getters-Reaches base_path peers _,
)

picked :
    (p : HttpPool) (m : Map) (key : Text) (getter : Option HttpGetter)
    → p.peers ≡ some m
    → pick_peer p key ≡ some getter
    → (ConsistentHash.get m key ≢ [])
      × (ConsistentHash.get m key ≢ p.self)
      × (lookup text_dec (ConsistentHash.get m key) p.http_getters ≡ getter)
unfolding pick_peer
picked p m key getter e h = ground (arith, e, h)

empty_ring : (m : Map) (key : Text) → m.keys ≡ [] → ConsistentHash.get m key ≡ []
unfolding ConsistentHash.get
empty_ring m key e = rw (e, ConsistentHash.get) refl

-- After `Set`, with a checksum of 32 bits: a peer that is picked for a key is the node that owns the
-- key on the ring of the peers, it is not the pool itself, and its getter has the peer's address with
-- the base path behind it.
pub pick_peer-set :
    (checksum : Hash) (p : HttpPool) (peers : List Text) (key : Text) (getter : Option HttpGetter)
    → ((x : Text) → checksum x < 2 ^ 32)
    → pick_peer (set checksum p peers) key ≡ some getter
    → (ConsistentHash.get (ring checksum p peers) key ≢ p.self)
      × (getter
          ≡ some
              (record { base_url = ConsistentHash.get (ring checksum p peers) key ++ p.base_path }))
unfolding set new_map
pick_peer-set checksum p peers key getter small h =
    let (some_node, other, found) =
      picked (set checksum p peers) (ring checksum p peers) key getter refl h in
    let r : IsRing (Reaches p.base_path (set_getters p.base_path peers p.http_getters))
        (ring checksum p peers) =
      add-IsRing _ (new_map checksum p.opts.replicas none) peers
        (set_getters-Reaches p.base_path peers p.http_getters)
        (new_map-IsPlaced _ p.opts.replicas checksum checksum small) in
    let o = get-Owned _ (ring checksum p peers) key r (λ e. some_node (empty_ring _ key e)) in
    (other, sym found ∙ o.property)

no_points : (peers : List Text) (m : Map) → m.replicas ≡ 0 → add_all peers m ≡ m
unfolding add_all add_replicas
no_points [] m e = refl
no_points (peer ∷ peers) m e =
    ap (add_all peers) (ap (λ r. add_replicas r 0 peer m) e) ∙ no_points peers m e

ring-empty :
    (checksum : Hash) (p : HttpPool) (peers : List Text)
    → p.opts.replicas ≡ 0
    → (ring checksum p peers).keys ≡ []
unfolding add new_map sort_ints
ring-empty checksum p peers e =
    ap (λ (m : Map). sort_ints m.keys) (no_points peers (new_map checksum p.opts.replicas none) e)

unpicked :
    (p : HttpPool) (m : Map) (key : Text)
    → p.peers ≡ some m
    → ConsistentHash.get m key ≡ []
    → pick_peer p key ≡ none
unfolding pick_peer
unpicked p m key e h = ground (arith, e, h)

replicas_lost :
    (self : Text) (opts : HttpPoolOptions)
    → opts.replicas ≢ 0
    → (new_http_pool_with_opts self opts).opts.replicas ≡ 0
unfolding new_http_pool_with_opts
replicas_lost self opts given = ground (arith, given)

-- A pool that is made with a number of replicas other than 0 has none: whatever peers are set, no
-- peer is ever picked.
pub pick_peer-none :
    (checksum : Hash) (self key : Text) (opts : HttpPoolOptions) (peers : List Text)
    → opts.replicas ≢ 0
    → pick_peer (set checksum (new_http_pool_with_opts self opts) peers) key ≡ none
unfolding set
pick_peer-none checksum self key opts peers given =
    let p : HttpPool = new_http_pool_with_opts self opts in
    unpicked (set checksum p peers) (ring checksum p peers) key refl (
      empty_ring (ring checksum p peers) key
        (ring-empty checksum p peers (replicas_lost self opts given)))
