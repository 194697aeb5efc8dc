-- ===== src/Demo/Api.antt =====
-- main.go: what the API server of a node answers.
use mathlib.Core.Path.{ap₂}
use golang_frame_practice.Common.Outcome.{Outcome, ok}
use golang_frame_practice.Common.{
  ℕ, ◌+◌, ◌^◌, ◌<◌, ◌≡◌, refl, ap, ◌∙◌, Option, none, List, [], ◌∷◌, map, length, Text, text, arith,
  All,
}
use golang_frame_practice.ConsistentHash.{Hash}
use golang_frame_practice.Demo.{
  source, source_text, create_group, node_pool, picker, node_group, api, api_all, api_answer,
}
use golang_frame_practice.Group.{byte_slice, PeerGetter, Group, get}
use golang_frame_practice.Group.Load.{Returns, reply, clone_bytes_lem}
use golang_frame_practice.Group.Run.{run, run-eq-getter}
use golang_frame_practice.Pool.{HttpGetter, pick_peer}

module _ (marshal : Text → Outcome Text) where
  api_all-run :
      (g : Group) (keys : List Text)
      → api_all marshal g keys ≡ map api_answer (run source marshal g keys)
  unfolding api_all api run
  api_all-run g [] = refl
  api_all-run g (k ∷ keys) =
      let (g', r) = get source marshal g k in ap (λ l. api_answer r ∷ l) (api_all-run g' keys)

  -- The keys that the node owns or nobody does, of a length without overflow.
  abbrev IsOwn : Hash → List Text → ℕ → Text → Type 0
  IsOwn checksum addrs port k =
      (pick_peer (node_pool checksum addrs port) k ≡ none)
      × (2048 + (length k + length (source_text k)) < 2 ^ 63)

  owned :
      (peer_get : Option HttpGetter → PeerGetter) (checksum : Hash) (addrs : List Text) (port : ℕ)
      (keys : List Text)
      → All (IsOwn checksum addrs port) keys
      → All
          (λ k.
            (picker peer_get (node_pool checksum addrs port) k ≡ none) × Returns 2048 k (source k))
          keys
  owned peer_get checksum addrs port [] h = tt
  owned peer_get checksum addrs port (k ∷ keys) h =
      ((ground (arith, h.0.0), h.0.1), owned peer_get checksum addrs port keys h.1)

  answered :
      (keys : List Text)
      → map api_answer (map (λ k. reply (source k)) keys)
        ≡ map (λ k. ok (record { status = 200; body = source_text k })) keys
  unfolding api_answer byte_slice
  answered [] = refl
  answered (k ∷ keys) =
      ap₂ ◌∷◌ (ap (λ b. ok (record { status = 200; body = b })) (clone_bytes_lem (source_text k)))
        (answered keys)

  -- The node of a port answers any sequence of requests for keys of which no other node is the owner,
  -- and which do not overflow a 64-bit length, with the status 200 and the text of the source, whatever
  -- its cache has evicted, and whatever the order of the peers and the answers of the other nodes are.
  pub api_all-source :
      (peer_get : Option HttpGetter → PeerGetter) (checksum : Hash) (addrs : List Text) (port : ℕ)
      (keys : List Text)
      → All (IsOwn checksum addrs port) keys
      → api_all marshal (node_group peer_get (node_pool checksum addrs port)) keys
        ≡ map (λ k. ok (record { status = 200; body = source_text k })) keys
  unfolding node_group create_group
  api_all-source peer_get checksum addrs port keys h =
      api_all-run (node_group peer_get (node_pool checksum addrs port)) keys
      ∙ ap (map api_answer) (
          run-eq-getter source marshal (text "source") 2048
            (picker peer_get (node_pool checksum addrs port)) keys (omega arith) (omega arith)
            (owned peer_get checksum addrs port keys h))
      ∙ answered keys
