-- ===== src/Pool/Tests.antt =====
-- CCache/http.go: a pool with two peers, and one whose replicas are given.
use golang_frame_practice.Common.{
  ℕ, ◌+◌, ◌^◌, ◌<◌, ◌≡◌, ◌≢◌, refl, none, some, List, [], ◌∷◌, ◌++◌, Text, text, text_dec, arith,
  length, lookup,
}
use golang_frame_practice.Common.Outcome.{Outcome, ok, err}
use golang_frame_practice.Group.{Group, new_group, register_peers, PeerGetter}
use golang_frame_practice.Group
use golang_frame_practice.Common.Strings.{itoa}
use golang_frame_practice.Common.Assoc.{insert}
use golang_frame_practice.ConsistentHash.{
  Hash, new_map, add_replicas, add_all, sort_insert, sort_ints, add, search_loop, search, position,
  node_at,
}
use golang_frame_practice.Pool.{
  HttpGetter, HttpPool, default_base_path, serve_http, new_http_pool_with_opts, set_getters, set,
  pick_peer,
}
use golang_frame_practice.Pool.Serve.{said, serve_http-said}
use golang_frame_practice.Pool.Pick.{ring, pick_peer-set}
use golang_frame_practice.ConsistentHash

-- The length stands in for a checksum.
abbrev short : Hash
short s = 7

abbrev here : HttpPool
here = new_http_pool_with_opts (text "here") (record { replicas = 0 })

abbrev pair : List Text
pair = text "here" ∷ text "far" ∷ []

far : HttpGetter
far = record { base_url = text "far/ccache/" }

-- The definitions that a run computes with.
program : Unit {0}
unfolding far text_dec lookup insert itoa new_map add_replicas add_all sort_insert sort_ints add
    search_loop search position node_at ConsistentHash.get new_http_pool_with_opts set_getters set
    pick_peer
program = tt

far_picked : pick_peer (set short here pair) (text "key") ≡ some (some far)
unfolding program golang_frame_practice.Common.dec_le
far_picked = refl

pick_peer-set_example :
    (ConsistentHash.get (ring short here pair) (text "key") ≢ here.self)
    × (some far
        ≡ some (record {
          base_url = ConsistentHash.get (ring short here pair) (text "key") ++ here.base_path;
        }))
pick_peer-set_example =
    pick_peer-set short here pair (text "key") (some far) (λ x. omega arith) far_picked

-- A group that owns every key, and whose source has none.
abbrev empty_source : Text → Outcome Text
empty_source key = err (text "no " ++ key)

abbrev as_message : Text → Outcome Text
as_message value = ok value

abbrev scores : Group
scores = (register_peers (new_group (text "scores") 0) (λ key. none)).0

serve_http-said_example :
    serve_http empty_source as_message here
      ((text "scores", scores) ∷ [])
      (default_base_path ++ text "scores" ++ 47 ∷ text "a/b")
    ≡ (
      insert text_dec
          (text "scores")
          (Group.get empty_source as_message scores (text "a/b")).0
          ((text "scores", scores) ∷ []),
      said empty_source as_message (err (text "no a/b")) [],
    )
unfolding program golang_frame_practice.Common.ℕ_discrete new_group register_peers Group.get
    Group.fetch Group.load Group.get_locally Group.box_get Group.settle
serve_http-said_example =
    serve_http-said empty_source as_message here ((text "scores", scores) ∷ []) (text "scores")
      (text "a/b") scores (Group.get empty_source as_message scores (text "a/b")).0
      (err (text "no a/b")) [] refl (refl, (refl, (refl, (refl, (refl, (refl, tt)))))) refl refl
      refl
