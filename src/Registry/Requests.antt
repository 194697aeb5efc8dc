-- ===== src/Registry/Requests.antt =====
-- SuRPC/registry/registry.go: what the requests do to the registry, and what a client makes of its
-- answer (SuRPC/xclient/discovery_su.go).
use golang_frame_practice.Common.Assoc.{
  IsMap, insert, delete, insert-IsMap, delete-IsMap, lookup-insert_self, lookup-insert_ne,
}
use golang_frame_practice.Common.Outcome.{Outcome, ok}
use golang_frame_practice.Common.Strings.{join, split, trim_space, IsFree, split-join}
use golang_frame_practice.Common.{
  ℕ, ◌+◌, ◌≤◌, ◌≡◌, refl, sym, ◌∙◌, ◌≢◌, inl, inr, ◌||◌, ◌==◌, some, List, [], ◌∷◌, ◌++◌, lookup,
  ltb, Text, text, text_dec, arith, ite, All, Option-cases, length, replicate,
}
use golang_frame_practice.Discovery.{SuRegistryDiscovery, refresh}
use golang_frame_practice.Discovery.Refresh.{named, named_first, refresh-servers}
use golang_frame_practice.Registry.{
  ServerItem, SuRegistry, put_server, is_alive, sweep, alive_servers, Method, get, post, other,
  servers_header, serve_http,
}
use golang_frame_practice.Registry.Alive.{lists, alive, lists-alive, lookup-alive_servers}

sweep-IsMap :
    (timeout : ℕ) (now : Text → ℕ) (m servers : List (Text × ServerItem)) (acc : List Text)
    → IsMap text_dec servers
    → IsMap text_dec (sweep timeout now m servers acc).0
unfolding sweep
sweep-IsMap timeout now [] servers acc d = d
sweep-IsMap timeout now ((b, item) ∷ m) servers acc d = ground (
  arith,
  sweep-IsMap timeout now m servers (acc ++ b ∷ []) d,
  sweep-IsMap timeout now m (delete text_dec b servers) acc (delete-IsMap text_dec b servers d),
)

-- Each address stands once in the map, with an item that carries it.
pub record IsRegistry (s : SuRegistry) : Type 0 where
  pub distinct : IsMap text_dec s.servers
  pub addressed :
      (a : Text) (item : ServerItem) → lookup text_dec a s.servers ≡ some item → item.addr ≡ a

pub put_server-insert :
    (now : ℕ) (s : SuRegistry) (addr : Text)
    → IsRegistry s
    → put_server now s addr
      ≡ record s { servers = insert text_dec addr (record { addr = addr; start = now }) s.servers }
unfolding put_server
put_server-insert now s addr h = elim (Option-cases (lookup text_dec addr s.servers)) [
  | inl e ↦ ground (arith, e)
  | inr (item, e) ↦ ground (arith, e, h.addressed addr item e)
]

put_server-IsRegistry :
    (now : ℕ) (s : SuRegistry) (addr : Text) → IsRegistry s → IsRegistry (put_server now s addr)
put_server-IsRegistry now s addr h =
    let new : ServerItem = record { addr = addr; start = now } in
    rw (put_server-insert now s addr h) (record {
      distinct = insert-IsMap text_dec addr new s.servers h.distinct;
      addressed = λ a item e. elim (text_dec a addr) [
        | yes p ↦ ground (arith, lookup-insert_self text_dec addr new s.servers)
        | no p ↦ h.addressed a item (sym (lookup-insert_ne text_dec addr a new s.servers p) ∙ e)
      ];
    })

-- Every request, of any method, keeps the keys of the map distinct and each item under its own
-- address.
pub serve_http-IsRegistry :
    (clock : Text → ℕ) (now : ℕ) (s : SuRegistry) (m : Method) (addr : Text)
    → IsRegistry s
    → IsRegistry (serve_http clock now s m addr).0
unfolding serve_http
serve_http-IsRegistry clock now s get addr h = record {
  distinct = unfold alive_servers in sweep-IsMap s.timeout clock s.servers s.servers [] h.distinct;
  addressed =
      λ a item e. h.addressed a item (ground (arith, e, lookup-alive_servers clock s a h.distinct));
}
serve_http-IsRegistry clock now s post [] h = h
serve_http-IsRegistry clock now s post (c ∷ addr) h = put_server-IsRegistry now s (c ∷ addr) h
serve_http-IsRegistry clock now s (other m) addr h = h

-- After a heartbeat of `addr` at `t`, `aliveServers` lists `addr` if the timeout is 0 or the clock is
-- before `t` plus the timeout, and lists every other address as it did without the heartbeat.
pub lists-put_server :
    (clock : Text → ℕ) (t : ℕ) (s : SuRegistry) (addr b : Text)
    → IsRegistry s
    → lists b (alive_servers clock (put_server t s addr)).1
      ≡ ite
          (text_dec b addr)
          (s.timeout == 0 || ltb (clock addr) (t + s.timeout))
          (lists b (alive_servers clock s).1)
unfolding alive is_alive
lists-put_server clock t s addr b h =
    let new : ServerItem = record { addr = addr; start = t } in
    let h' : IsRegistry (put_server t s addr) = put_server-IsRegistry t s addr h in
    lists-alive clock (put_server t s addr) b h'.distinct
    ∙ rw (put_server-insert t s addr h) (elim (text_dec b addr) [
      | yes p ↦ ground (arith, p, lookup-insert_self text_dec addr new s.servers)
      | no p ↦ ground (
        arith,
        p,
        lookup-insert_ne text_dec addr b new s.servers p,
        lists-alive clock s b h.distinct,
      )
    ])

-- An address that can stand in the header: no comma, no white space around it, not empty.
pub record IsClean (a : Text) : Type 0 where
  pub no_comma : IsFree b',' a
  pub trimmed : trim_space a ≡ a
  pub not_empty : a ≢ []

named-clean : (l : List Text) → All IsClean l → named l ≡ l
unfolding named named_first
named-clean [] h = refl
named-clean (a ∷ l) h = ground (arith, h.0.trimmed, h.0.not_empty, named-clean l h.1)

All-no_comma : (l : List Text) → All IsClean l → All (IsFree b',') l
All-no_comma [] h = tt
All-no_comma (a ∷ l) h = (h.0.no_comma, All-no_comma l h.1)

-- If the registry lists some addresses, each of them free of commas, without blanks around it and not
-- empty, and its answer to a GET is the header that reaches a client whose last answer has expired,
-- then after the refresh the client has those addresses, in order, behind as many empty ones.
pub refresh-serve_http :
    (http_get : Text → Outcome Text) (clock : Text → ℕ) (now : ℕ) (s : SuRegistry)
    (d : SuRegistryDiscovery) (header a : Text) (l : List Text)
    → (alive_servers clock s).1 ≡ a ∷ l
    → All IsClean (a ∷ l)
    → (serve_http clock now s get []).1 ≡ servers_header header
    → d.last_update + d.timeout ≤ now
    → http_get d.registry ≡ ok header
    → (refresh http_get now d).0.servers ≡ replicate (length (a ∷ l)) [] ++ (a ∷ l)
unfolding serve_http
refresh-serve_http http_get clock now s d header a l live clean e expired fetched =
    let j : header ≡ join (text ",") (a ∷ l) = ground (arith, live, e) in
    let p : split b',' header ≡ a ∷ l =
      rw j (split-join b',' a l clean.0.no_comma (All-no_comma l clean.1)) in
    (refresh-servers http_get now d header expired fetched).1 ∙ rw (p, named-clean (a ∷ l) clean)
