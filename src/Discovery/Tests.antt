-- ===== src/Discovery/Tests.antt =====
-- Tests of the lists of servers on small inputs, and their theorems at them.
use golang_frame_practice.Common.Outcome.{Outcome, ok}
use golang_frame_practice.Common.Strings.{split, trim_space, push_byte}
use golang_frame_practice.Common.{
  ℕ, ◌≡◌, refl, List, [], ◌∷◌, ◌++◌, map, length, replicate, Text, text, arith,
}
use golang_frame_practice.Discovery.{
  server_at, get, SuRegistryDiscovery, append_server, append_servers, refresh, su_get,
}
use golang_frame_practice.Discovery.Refresh.{named, named_first, refresh-servers}
use golang_frame_practice.Discovery.RoundRobin.{rounds, rounds-rotate}

program : Unit {0}
unfolding server_at get append_servers append_server refresh su_get split push_byte trim_space named
    named_first rounds
program = tt

abbrev three : List Text
three = text "a" ∷ text "b" ∷ text "c" ∷ []

abbrev first : ℕ → ℕ
first n = 0

-- The position 7 is that of the second of three servers.
rounds-rotate_example :
    rounds first 3 (record { servers = three; index = 7 })
    ≡ map ok (text "b" ∷ text "c" ∷ text "a" ∷ [])
rounds-rotate_example = rounds-rotate first (text "a" ∷ []) (text "c" ∷ []) (text "b") 7 refl

abbrev header : Text
header = text "tcp@h:1, tcp@h:2"

abbrev fetch : Text → Outcome Text
fetch addr = ok header

abbrev expired : SuRegistryDiscovery
expired = record {
  multi = record { servers = []; index = 4 };
  registry = text "http://h:9999";
  timeout = 10;
  last_update = 5;
}

refresh-servers_example :
    ((refresh fetch 20 expired).1 ≡ ok tt)
    × ((refresh fetch 20 expired).0.servers
        ≡ replicate (length (split b',' header)) [] ++ named (split b',' header))
    × ((refresh fetch 20 expired).0.last_update ≡ 20)
    × ((refresh fetch 20 expired).0.index ≡ 4)
refresh-servers_example = refresh-servers fetch 20 expired header (omega arith) refl

-- Two addresses are refreshed into four servers.
refreshed : (refresh fetch 20 expired).0.servers ≡ [] ∷ [] ∷ text "tcp@h:1" ∷ text "tcp@h:2" ∷ []
unfolding program
refreshed = refl
