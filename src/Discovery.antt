-- ===== src/Discovery.antt =====
-- SuRPC/xclient/discovery.go and discovery_su.go: the lists of servers that a client chooses from.
-- A method is one critical section. Times and durations are numbers of nanoseconds.
pub mod RoundRobin
pub mod Choice
pub mod Refresh
mod Tests
use golang_frame_practice.Common.Outcome.{Outcome, ok, err, panics, hangs, exits}
use golang_frame_practice.Common.Strings.{split, trim_space}
use golang_frame_practice.Common.{
  ℕ, zero, suc, ◌+◌, ◌*◌, ◌%◌, ◌==◌, Bool, true, false, Option, none, some, List, [], ◌∷◌, ◌++◌,
  length, get_elem?, replicate, ltb, if◌then◌else◌, Text, text,
}

-- `other` is any further value of the integer type.
pub data SelectMode : Type 0 where
  random_select round_robin_select : SelectMode
  other : ℕ → SelectMode

pub record MultiServerDiscovery : Type 0 where
  pub servers : List Text
  pub index : ℕ

-- `NewMultiServerDiscovery`; `intn` is `rand.Intn`.
unfoldable pub new_multi_server_discovery : (ℕ → ℕ) → List Text → MultiServerDiscovery
new_multi_server_discovery intn servers = record { servers = servers; index = intn 2147483646 }

-- `Update`
unfoldable pub update : MultiServerDiscovery → List Text → MultiServerDiscovery
update m servers = record m { servers = servers }

-- `servers[i]`
unfoldable pub server_at : List Text → ℕ → Outcome Text
server_at servers i = elim (get_elem? servers i) [
  | none ↦ panics (text "index out of range")
  | some s ↦ ok s
]

-- `Get`; `intn` is `rand.Intn` at this call.
unfoldable pub get :
    (ℕ → ℕ) → MultiServerDiscovery → SelectMode → MultiServerDiscovery × Outcome Text
get intn m mode =
    if length m.servers == 0
    then (m, err (text "rpc discovery: no available servers"))
    else elim mode [
      | random_select ↦ (m, server_at m.servers (intn (length m.servers)))
      | round_robin_select ↦ (
        record m { index = (m.index + 1) % length m.servers },
        server_at m.servers (m.index % length m.servers),
      )
      | other _ ↦ (m, err (text "rpc discovery: not supported mode"))
    ]

-- `make` and `copy` of the list.
unfoldable pub copy_servers : List Text → List Text
copy_servers [] = []
copy_servers (s ∷ l) = s ∷ copy_servers l

-- `GetAll`
unfoldable pub get_all : MultiServerDiscovery → List Text
get_all m = copy_servers m.servers

pub record SuRegistryDiscovery : Type 0 where
  pub multi : MultiServerDiscovery
  pub open multi use *
  pub registry : Text
  pub timeout : ℕ
  pub last_update : ℕ

abbrev pub default_update_timeout : ℕ
default_update_timeout = 10 * 1_000_000_000

-- `NewSuRegistryDiscovery`
unfoldable pub new_su_registry_discovery : (ℕ → ℕ) → Text → ℕ → SuRegistryDiscovery
new_su_registry_discovery intn registry_addr timeout = record {
  multi = new_multi_server_discovery intn [];
  registry = registry_addr;
  timeout = if timeout == 0 then default_update_timeout else timeout;
  last_update = 0;
}

-- `Update` of the registry's discovery, at the time `now`.
unfoldable pub su_update : ℕ → SuRegistryDiscovery → List Text → SuRegistryDiscovery
su_update now d servers = record d {
  multi = record d.multi { servers = servers };
  last_update = now;
}

-- One round of the loop of `Refresh`, with the trimmed piece.
unfoldable pub append_server : List Text → Text → List Text
append_server servers [] = servers
append_server servers (c ∷ s) = servers ++ (c ∷ s) ∷ []

-- The loop of `Refresh` over the pieces of the header, whose addresses are in ASCII.
unfoldable pub append_servers : List Text → List Text → List Text
append_servers servers [] = servers
append_servers servers (piece ∷ pieces) =
    append_servers (append_server servers (trim_space piece)) pieces

-- `Refresh`; `http_get` gives the header `X-Surpc-Servers` of the registry's answer.
unfoldable pub refresh :
    (Text → Outcome Text) → ℕ → SuRegistryDiscovery → SuRegistryDiscovery × Outcome (Unit {0})
refresh http_get now d =
    if ltb now (d.last_update + d.timeout) then (d, ok tt) else elim (http_get d.registry) [
      | err e ↦ (d, err e)
      | panics e ↦ (d, panics e)
      | hangs ↦ (d, hangs)
      | exits e ↦ (d, exits e)
      | ok header ↦
          let servers = split b',' header in
          (
            record d {
              multi = record d.multi {
                servers = append_servers (replicate (length servers) []) servers;
              };
              last_update = now;
            },
            ok tt,
          )
    ]

-- `Get` of the registry's discovery.
unfoldable pub su_get :
    (Text → Outcome Text)
    → (ℕ → ℕ)
    → ℕ
    → SuRegistryDiscovery
    → SelectMode
    → SuRegistryDiscovery × Outcome Text
su_get http_get intn now d mode =
    let (d', r) = refresh http_get now d in
    elim r [
      | err e ↦ (d', err e)
      | panics e ↦ (d', panics e)
      | hangs ↦ (d', hangs)
      | exits e ↦ (d', exits e)
      | ok _ ↦ let (m, s) = get intn d'.multi mode in (record d' { multi = m }, s)
    ]

-- `GetAll` of the registry's discovery.
unfoldable pub su_get_all :
    (Text → Outcome Text) → ℕ → SuRegistryDiscovery → SuRegistryDiscovery × Outcome (List Text)
su_get_all http_get now d =
    let (d', r) = refresh http_get now d in
    elim r [
      | err e ↦ (d', err e)
      | panics e ↦ (d', panics e)
      | hangs ↦ (d', hangs)
      | exits e ↦ (d', exits e)
      | ok _ ↦ (d', ok (get_all d'.multi))
    ]
