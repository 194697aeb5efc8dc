-- ===== src/Discovery/Refresh.antt =====
-- SuRPC/xclient/discovery_su.go: what a refresh makes of the registry's header.
use mathlib.Core.List.{append_assoc, append-nil}
use golang_frame_practice.Common.Outcome.{Outcome, ok, err}
use golang_frame_practice.Common.Strings.{split, trim_space, split_first}
use golang_frame_practice.Common.{
  ℕ, zero, suc, ◌+◌, ◌%◌, ◌<◌, ◌≤◌, ◌≡◌, refl, sym, ap, ◌∙◌, some, List, [], ◌∷◌, ◌++◌, length,
  get_elem?, replicate, Text, arith, length-append,
}
use golang_frame_practice.Discovery.{
  MultiServerDiscovery, SuRegistryDiscovery, round_robin_select, SelectMode, server_at, get,
  append_server, append_servers, refresh, su_get, copy_servers, get_all, su_get_all,
}

-- A trimmed piece in front, if it names a server.
unfoldable pub named_first : Text → List Text → List Text
named_first [] rest = rest
named_first (c ∷ s) rest = (c ∷ s) ∷ rest

-- The pieces that name a server, trimmed.
unfoldable pub named : List Text → List Text
named [] = []
named (piece ∷ pieces) = named_first (trim_space piece) (named pieces)

append_server-named :
    (servers : List Text) (t : Text) (rest : List Text)
    → append_server servers t ++ rest ≡ servers ++ named_first t rest
unfolding append_server named_first
append_server-named servers [] rest = refl
append_server-named servers (c ∷ s) rest = append_assoc servers ((c ∷ s) ∷ []) rest

append_servers-named :
    (servers pieces : List Text) → append_servers servers pieces ≡ servers ++ named pieces
unfolding append_servers named
append_servers-named servers [] = sym (append-nil servers)
append_servers-named servers (p ∷ pieces) =
    append_servers-named (append_server servers (trim_space p)) pieces
    ∙ append_server-named servers (trim_space p) (named pieces)

-- A refresh whose last answer has expired and that the registry answers with a header succeeds, notes
-- the time, keeps the position, and leaves as many empty servers as the header has pieces in front of
-- the servers that the pieces name.
pub refresh-servers :
    (http_get : Text → Outcome Text) (now : ℕ) (d : SuRegistryDiscovery) (header : Text)
    → d.last_update + d.timeout ≤ now
    → http_get d.registry ≡ ok header
    → ((refresh http_get now d).1 ≡ ok tt)
      × ((refresh http_get now d).0.servers
          ≡ replicate (length (split b',' header)) [] ++ named (split b',' header))
      × ((refresh http_get now d).0.last_update ≡ now)
      × ((refresh http_get now d).0.index ≡ d.index)
unfolding refresh
refresh-servers http_get now d header expired e =
    ground (
      arith,
      e,
      append_servers-named (replicate (length (split b',' header)) []) (split b',' header),
    )

-- A registry that cannot be reached leaves the list alone, and `Get` reports the error.
pub su_get-err :
    (http_get : Text → Outcome Text) (intn : ℕ → ℕ) (now : ℕ) (d : SuRegistryDiscovery)
    (mode : SelectMode) (e : Text)
    → d.last_update + d.timeout ≤ now
    → http_get d.registry ≡ err e
    → su_get http_get intn now d mode ≡ (d, err e)
unfolding su_get refresh
su_get-err http_get intn now d mode e expired h = ground arith

get_elem?-replicate :
    (n i : ℕ) (l : List Text) → i < n → get_elem? (replicate n [] ++ l) i ≡ some []
get_elem?-replicate zero i l h = elim h [ ]
get_elem?-replicate (suc n) zero l h = refl
get_elem?-replicate (suc n) (suc i) l h = get_elem?-replicate n i l (omega arith)

length-replicate : (n : ℕ) → length (replicate {A = Text} n []) ≡ n
length-replicate zero = refl
length-replicate (suc n) = ap suc (length-replicate n)

get_leading :
    (intn : ℕ → ℕ) (m : MultiServerDiscovery) (n : ℕ) (l : List Text)
    → m.servers ≡ replicate n [] ++ l
    → m.index % (n + length l) < n
    → (get intn m round_robin_select).1 ≡ ok []
unfolding get server_at
get_leading intn m n l e h =
    let len : length m.servers ≡ n + length l =
      rw e (length-append (replicate n []) l ∙ omega (arith, length-replicate n)) in
    let here : get_elem? m.servers (m.index % length m.servers) ≡ some [] =
      rw (len, e) (get_elem?-replicate n (m.index % (n + length l)) l h) in
    ground (arith, here, len)

-- When the last answer has expired, the registry answers, and the position modulo the length of the
-- new list is below the number of pieces of the header, round robin returns the empty string.
pub su_get-empty :
    (http_get : Text → Outcome Text) (intn : ℕ → ℕ) (now : ℕ) (d : SuRegistryDiscovery)
    (header : Text)
    → d.last_update + d.timeout ≤ now
    → http_get d.registry ≡ ok header
    → d.index % (length (split b',' header) + length (named (split b',' header)))
      < length (split b',' header)
    → (su_get http_get intn now d round_robin_select).1 ≡ ok []
unfolding su_get
su_get-empty http_get intn now d header expired e h =
    let r = refresh-servers http_get now d header expired e in
    ground (
      arith,
      r,
      get_leading intn (refresh http_get now d).0.multi (length (split b',' header))
          (named (split b',' header)) r.1 (rw r.3 h),
    )

copy_servers_same : (l : List Text) → copy_servers l ≡ l
unfolding copy_servers
copy_servers_same [] = refl
copy_servers_same (s ∷ l) = ap (λ r. s ∷ r) (copy_servers_same l)

-- `GetAll` then lists the empty address first.
pub su_get_all-empty :
    (http_get : Text → Outcome Text) (now : ℕ) (d : SuRegistryDiscovery) (header : Text)
    → d.last_update + d.timeout ≤ now
    → http_get d.registry ≡ ok header
    → (l : List Text) × ((su_get_all http_get now d).1 ≡ ok ([] ∷ l))
unfolding su_get_all get_all
su_get_all-empty http_get now d header expired e =
    let r = refresh-servers http_get now d header expired e in
    let (p, pieces, s) = split_first b',' header in
    let servers : (refresh http_get now d).0.servers
        ≡ [] ∷ (replicate (length pieces) [] ++ named (p ∷ pieces)) =
      r.1 ∙ rw s refl in
    (
      replicate (length pieces) [] ++ named (p ∷ pieces),
      ground (arith, r.0, copy_servers_same (refresh http_get now d).0.servers, servers),
    )
