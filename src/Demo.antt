-- ===== src/Demo.antt =====
-- main.go: the cache node that `ccacheRun` starts, and the handler of its API server.
pub mod Api
mod Tests
use golang_frame_practice.Common.Outcome.{Outcome, ok, err, panics, hangs, exits}
use golang_frame_practice.Common.{
  ℕ, Option, none, some, List, [], ◌∷◌, ◌++◌, lookup, ℕ_discrete, Text, text, text_dec,
}
use golang_frame_practice.ConsistentHash.{Hash}
use golang_frame_practice.Group.{
  ByteView, byte_slice, PeerGetter, PeerPicker, Group, new_group, register_peers, get,
}
use golang_frame_practice.Pool.{
  HttpGetter, HttpPool, new_http_pool_with_opts, set, pick_peer, Response, http_error,
}

abbrev pub db : List (Text × Text)
db = (text "A", text "A") ∷ (text "B", text "B") ∷ (text "C", text "C") ∷ []

-- What the getter of `createGroup` returns for a key; it never fails.
unfoldable pub source_text : Text → Text
source_text key = elim (lookup text_dec key db) [
  | some v ↦ v
  | none ↦ key ++ (text " not exists " ++ 10 ∷ [])
]

abbrev pub source : Text → Outcome Text
source key = ok (source_text key)

-- `createGroup`
unfoldable pub create_group : Group
create_group = new_group (text "source") 2048

abbrev pub peer_list : List (ℕ × Text)
peer_list =
    (8001, text "localhost:8081")
    ∷ (8002, text "localhost:8082")
    ∷ (8003, text "localhost:8083")
    ∷ []

-- `peerList[port]`
unfoldable pub peer_of : ℕ → Text
peer_of port = elim (lookup ℕ_discrete port peer_list) [ none ↦ [] | some addr ↦ addr ]

-- The pool of a node; `addrs` are the values of `peerList` in the order in which the map is walked.
unfoldable pub node_pool : Hash → List Text → ℕ → HttpPool
node_pool checksum addrs port =
    set checksum (new_http_pool_with_opts (peer_of port) (record { replicas = 0 })) addrs

-- The pool as a `PeerPicker`; `peer_get` is what the group gets of a peer.
abbrev pub picker : (Option HttpGetter → PeerGetter) → HttpPool → PeerPicker
picker peer_get p key = elim (pick_peer p key) [
  | none ↦ none
  | some getter ↦ some (peer_get getter)
]

-- The group of a node.
unfoldable pub node_group : (Option HttpGetter → PeerGetter) → HttpPool → Group
node_group peer_get p = (register_peers create_group (picker peer_get p)).0

-- What the handler of `/api` writes.
unfoldable pub api_answer : Outcome ByteView → Outcome Response
api_answer (ok v) = ok (record { status = 200; body = byte_slice v })
api_answer (err e) = ok (http_error (record { status = 200; body = [] }) e 500)
api_answer (panics e) = panics e
api_answer hangs = hangs
api_answer (exits e) = exits e

module _ (marshal : Text → Outcome Text) where
  -- The handler of `/api` for a key.
  unfoldable pub api : Group → Text → Group × Outcome Response
  api group key = let (g, r) = get source marshal group key in (g, api_answer r)

  -- Requests one after another.
  unfoldable pub api_all : Group → List Text → List (Outcome Response)
  api_all group [] = []
  api_all group (key ∷ keys) = let (g, r) = api group key in r ∷ api_all g keys
