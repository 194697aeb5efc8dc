-- ===== src/Demo/Tests.antt =====
-- main.go: a node whose ring has its own address for every key, and requests for keys with and without a value.
use golang_frame_practice.Common.Outcome.{ok, err}
use golang_frame_practice.Common.{
  ◌≡◌, refl, Option, List, [], ◌∷◌, map, lookup, Text, text, text_dec, ℕ_discrete, dec_le, arith,
}
use golang_frame_practice.Common.Assoc.{insert}
use golang_frame_practice.Common.Strings.{itoa}
use golang_frame_practice.ConsistentHash.{
  Hash, new_map, add_replicas, add_all, sort_insert, sort_ints, add, search_loop, search, position,
  node_at,
}
use golang_frame_practice.ConsistentHash
use golang_frame_practice.Demo.{source_text, peer_of, node_pool, node_group, api_all}
use golang_frame_practice.Demo.Api.{api_all-source}
use golang_frame_practice.Group.{PeerGetter}
use golang_frame_practice.Pool.{HttpGetter, pick_peer, new_http_pool_with_opts, set_getters, set}

-- One value for all addresses and keys, so the last address owns every key.
abbrev checksum : Hash
checksum s = 7

abbrev addrs : List Text
addrs = text "localhost:8082" ∷ text "localhost:8083" ∷ text "localhost:8081" ∷ []

-- No other node answers.
abbrev silent : Option HttpGetter → PeerGetter
silent h group key = err (text "no route to host")

abbrev keys : List Text
keys = text "A" ∷ text "Q" ∷ text "A" ∷ []

-- The definitions that a run computes with.
program : Unit {0}
unfolding text_dec lookup insert itoa new_map add_replicas add_all sort_insert sort_ints add
    search_loop search position node_at ConsistentHash.get new_http_pool_with_opts set_getters set
    pick_peer source_text peer_of node_pool ℕ_discrete dec_le
program = tt

api_all-source_example :
    api_all (λ b. ok b) (node_group silent (node_pool checksum addrs 8001)) keys
    ≡ map (λ k. ok (record { status = 200; body = source_text k })) keys
unfolding program
api_all-source_example =
    api_all-source (λ b. ok b) silent checksum addrs 8001 keys
      ((refl, omega arith), ((refl, omega arith), ((refl, omega arith), tt)))
