-- ===== src/Registry.antt =====
-- SuRPC/registry/registry.go: the registry of server addresses with their last heartbeats. A request
-- is one step here; times and durations are numbers of nanoseconds. `putServer` holds the mutex, and
-- `aliveServers` does not: here its loop runs undisturbed, and Registry/Heartbeat has its tests and its
-- deletions as steps between other requests.
pub mod Alive
pub mod Requests
pub mod Heartbeat
pub mod Kept
pub mod Listed
mod Tests
use golang_frame_practice.Common.Assoc.{insert, delete}
use golang_frame_practice.Common.Strings.{join}
use golang_frame_practice.Common.{
  ℕ, ◌+◌, ◌*◌, ◌==◌, Bool, true, false, ◌||◌, Option, none, some, List, [], ◌∷◌, ◌++◌, lookup, ltb,
  if◌then◌else◌, Text, text, text_dec,
}

-- The struct `ServerItem`.
pub record ServerItem : Type 0 where
  pub addr : Text
  pub start : ℕ

-- The struct `SuRegistry`. A timeout of 0 keeps every server.
pub record SuRegistry : Type 0 where
  pub timeout : ℕ
  pub servers : List (Text × ServerItem)

abbrev pub default_timeout : ℕ
default_timeout = 5 * 60 * 1_000_000_000

-- `NewSuRegistry`
unfoldable pub new_su_registry : ℕ → SuRegistry
new_su_registry timeout = record { timeout = timeout; servers = [] }

-- `putServer` at the time `now`: the item is new, or its start is set.
unfoldable pub put_server : ℕ → SuRegistry → Text → SuRegistry
put_server now s addr = elim (lookup text_dec addr s.servers) [
  | none ↦ record s {
    servers = insert text_dec addr (record { addr = addr; start = now }) s.servers;
  }
  | some item ↦ record s { servers = insert text_dec addr (record item { start = now }) s.servers }
]

-- The test of `aliveServers`.
unfoldable pub is_alive : ℕ → ℕ → ServerItem → Bool
is_alive timeout now server = timeout == 0 || ltb now (server.start + timeout)

-- The order of Go strings, byte by byte.
unfoldable pub text_le : Text → Text → Bool
text_le [] t = true
text_le (a ∷ s) [] = false
text_le (a ∷ s) (b ∷ t) =
    let rest = text_le s t in if ltb a b then true else if a == b then rest else false

-- `sort.Strings`
unfoldable pub sort_insert : Text → List Text → List Text
sort_insert x [] = x ∷ []
sort_insert x (y ∷ l) = let rest = y ∷ sort_insert x l in if text_le x y then x ∷ y ∷ l else rest

unfoldable pub sort_strings : List Text → List Text
sort_strings [] = []
sort_strings (x ∷ l) = sort_insert x (sort_strings l)

-- The loop of `aliveServers` over the entries of the map, in the order in which `range` gives them.
-- `now` is what the clock says when the loop comes to an address.
unfoldable pub sweep :
    ℕ
    → (Text → ℕ)
    → List (Text × ServerItem)
    → List (Text × ServerItem)
    → List Text
    → List (Text × ServerItem) × List Text
sweep timeout now [] servers alive = (servers, alive)
sweep timeout now ((addr, server) ∷ rest) servers alive =
    let kept = sweep timeout now rest servers (alive ++ addr ∷ []) in
    let dropped = sweep timeout now rest (delete text_dec addr servers) alive in
    if is_alive timeout (now addr) server then kept else dropped

-- `aliveServers`
unfoldable pub alive_servers : (Text → ℕ) → SuRegistry → SuRegistry × List Text
alive_servers now s =
    let (servers, alive) = sweep s.timeout now s.servers s.servers [] in
    (record s { servers = servers }, sort_strings alive)

pub data Method : Type 0 where
  get post : Method
  other : Text → Method

pub data Response : Type 0 where
  servers_header : Text → Response
  done : Response
  internal_server_error method_not_allowed : Response

-- `ServeHTTP`; `addr` is the request's header `X-Surpc-Server`.
unfoldable pub serve_http : (Text → ℕ) → ℕ → SuRegistry → Method → Text → SuRegistry × Response
serve_http clock now s get addr =
    let (s', alive) = alive_servers clock s in (s', servers_header (join (text ",") alive))
serve_http clock now s post [] = (s, internal_server_error)
serve_http clock now s post (c ∷ addr) = (put_server now s (c ∷ addr), done)
serve_http clock now s (other m) addr = (s, method_not_allowed)
