-- ===== src/Group/Tests.antt =====
-- Tests of the group on small inputs, and its theorems at them.
use golang_frame_practice.Common.Outcome.{Outcome, ok, err}
use golang_frame_practice.Common.{
  ◌≡◌, refl, none, some, List, [], ◌∷◌, map, length, Text, text, text_dec, ite, arith,
}
use golang_frame_practice.Group.{PeerGetter, PeerPicker, Group, new_group, register_peers}
use golang_frame_practice.Group.Load.{reply}
use golang_frame_practice.Group.Run.{run, run-eq-getter}

-- The getter of `main.go`: a key of the table is its own value, and another key has an error here.
abbrev source : Text → Outcome Text
source k = ite (text_dec k (text "A")) (ok (text "A")) (err (text "not exists"))

-- A protobuf message with one field of bytes.
abbrev message : Text → Outcome Text
message b = ok (10 ∷ length b ∷ b)

abbrev nobody : PeerPicker
nobody k = none

abbrev server : PeerGetter
server group k = source k

abbrev somebody : PeerPicker
somebody k = some server

abbrev group : PeerPicker → Group
group pick = record {
  name = text "source";
  main_cache = record { lru = none; cache_bytes = 2048 };
  peers = some pick;
  in_flight = [];
  loads = [];
}

abbrev keys : List Text
keys = text "A" ∷ text "B" ∷ text "A" ∷ []

run-eq-getter_example :
    run source message (register_peers (new_group (text "source") 2048) nobody).0 keys
    ≡ map (λ k. reply (source k)) keys
unfolding text_dec
run-eq-getter_example =
    run-eq-getter source message (text "source") 2048 nobody keys (omega arith) (omega arith)
      ((refl, omega arith), ((refl, tt), ((refl, omega arith), tt)))
