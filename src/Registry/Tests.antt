-- ===== src/Registry/Tests.antt =====
-- Tests of the registry on small inputs, and its theorems at them.
use golang_frame_practice.Common.Assoc.{insert, delete, IsMap}
use golang_frame_practice.Common.Outcome.{Outcome, ok}
use golang_frame_practice.Common.Strings.{join, trim_space}
use golang_frame_practice.Common.{
  ℕ, ◌≡◌, ◌↔◌, refl, inr, true, ◌*◌, [], ◌∷◌, lookup, Text, text, text_dec, arith,
}
use golang_frame_practice.Discovery.{SuRegistryDiscovery, refresh}
use golang_frame_practice.Registry.Heartbeat.{
  period, send_heart_beat, next_tick, World, heartbeat, passes, ticks, finds, drops, Reach, here,
  later,
}
use golang_frame_practice.Registry.Listed.{heartbeat-lists}
use golang_frame_practice.Registry.{
  default_timeout, SuRegistry, put_server, is_alive, text_le, sort_insert, sort_strings, sweep,
  alive_servers, serve_http,
}
use golang_frame_practice.Registry.Alive.{lists, IsAlive, lists-alive_servers}
use golang_frame_practice.Registry.Requests.{IsRegistry, IsClean, refresh-serve_http}

program : Unit {0}
unfolding put_server is_alive text_le sort_insert sort_strings sweep alive_servers serve_http join
    insert delete lookup text_dec
program = tt

-- Two servers, with heartbeats at 3 and at 8, and a timeout of 10.
abbrev two : SuRegistry
two = record {
  timeout = 10;
  servers =
      (text "tcp@b", record { addr = text "tcp@b"; start = 3 })
      ∷ (text "tcp@a", record { addr = text "tcp@a"; start = 8 })
      ∷ [];
}

two-IsMap : IsMap text_dec two.servers
unfolding lookup
two-IsMap = ground arith

two-IsRegistry : IsRegistry two
unfolding lookup
two-IsRegistry = record { distinct = two-IsMap; addressed = λ a item e. ground arith }

abbrev at : ℕ → Text → ℕ
at n addr = n

-- At 10 both are listed, in order; at 15 one of them is, and the other is forgotten.
both : (alive_servers (at 10) two).1 ≡ text "tcp@a" ∷ text "tcp@b" ∷ []
unfolding program
both = refl

one :
    (alive_servers (at 15) two).0.servers
    ≡ (text "tcp@a", record { addr = text "tcp@a"; start = 8 }) ∷ []
unfolding program
one = refl

lists-alive_servers_example :
    (lists (text "tcp@b") (alive_servers (at 15) two).1 ≡ true) ↔ IsAlive two 15 (text "tcp@b")
lists-alive_servers_example = lists-alive_servers (at 15) two (text "tcp@b") two-IsMap

a-IsClean : IsClean (text "tcp@a")
unfolding trim_space
a-IsClean = record {
  no_comma = (refl, (refl, (refl, (refl, (refl, tt)))));
  trimmed = refl;
  not_empty = ground arith;
}

b-IsClean : IsClean (text "tcp@b")
unfolding trim_space
b-IsClean = record {
  no_comma = (refl, (refl, (refl, (refl, (refl, tt)))));
  trimmed = refl;
  not_empty = ground arith;
}

abbrev fetch : Text → Outcome Text
fetch addr = ok (text "tcp@a,tcp@b")

abbrev client : SuRegistryDiscovery
client = record {
  multi = record { servers = []; index = 0 };
  registry = text "http://h:9999";
  timeout = 10;
  last_update = 0;
}

refresh-serve_http_example :
    (refresh fetch 20 client).0.servers ≡ [] ∷ [] ∷ text "tcp@a" ∷ text "tcp@b" ∷ []
unfolding program
refresh-serve_http_example =
    refresh-serve_http fetch (at 10) 20 two client (text "tcp@a,tcp@b") (text "tcp@a")
      (text "tcp@b" ∷ []) refl (a-IsClean, (b-IsClean, tt)) refl (omega arith) refl

-- A server beats every four minutes on a registry with the default timeout, within ten seconds; a sweep
-- finds another server over and deletes it behind the second heartbeat.
abbrev seconds : ℕ → ℕ
seconds n = n * 1_000_000_000

abbrev stale : SuRegistry
stale = record {
  timeout = default_timeout;
  servers = (text "tcp@b", record { addr = text "tcp@b"; start = 0 }) ∷ [];
}

abbrev begun : World
begun = heartbeat true (ok tt) (seconds 1) 0 (text "tcp@a") (seconds 100) stale []

abbrev late : World
late = record begun { now = seconds 350 }

abbrev found : World
found = record late { doomed = text "tcp@b" ∷ [] }

abbrev beaten : World
beaten = record found {
  registry = (send_heart_beat true (ok tt) found.now (text "tcp@a") found.registry).0;
  next = next_tick 0 (seconds 341) (ok tt);
}

abbrev swept : World
swept = record beaten {
  registry = record beaten.registry {
    servers = delete text_dec (text "tcp@b") beaten.registry.servers;
  };
  doomed = [];
}

swept-Reach : Reach 0 (seconds 10) (text "tcp@a") begun swept
unfolding heartbeat send_heart_beat next_tick period program
swept-Reach =
    later
      (later
        (later (later here (passes (seconds 350) (omega arith) (λ d e. ground (arith, e))))
          (finds (text "tcp@b") (record { addr = text "tcp@b"; start = 0 }) refl refl))
        (ticks true (ok tt) (seconds 341) refl (omega arith) (λ e. refl)))
      (drops [] [] (text "tcp@b") refl)

heartbeat-lists_example :
    lists (text "tcp@a") (alive_servers (λ b. swept.now) swept.registry).1 ≡ true
unfolding heartbeat next_tick period lookup lists
heartbeat-lists_example =
    heartbeat-lists (text "tcp@a") 0 (seconds 10) (seconds 100) (seconds 1) stale [] true (ok tt)
      swept (seconds 581) (λ e. cc) (omega arith) (inr (omega arith)) refl (λ e. refl)
      (record { distinct = (refl, tt); addressed = λ a item e. ground (arith, e) }) swept-Reach refl
