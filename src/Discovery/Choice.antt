-- ===== src/Discovery/Choice.antt =====
-- SuRPC/xclient/discovery.go: what one call of `Get` can answer.
use golang_frame_practice.Common.Outcome.{ok, err}
use golang_frame_practice.Common.{
  ℕ, zero, suc, ◌%◌, ◌<◌, ◌≡◌, refl, some, List, [], ◌∷◌, length, get_elem?, ◌==◌, if◌then◌else◌,
  Text, text, arith,
}
use golang_frame_practice.Discovery.{
  MultiServerDiscovery, SelectMode, random_select, round_robin_select, other, server_at, get,
}

pub get_elem?-some : (l : List Text) (i : ℕ) → i < length l → (s : Text) × (get_elem? l i ≡ some s)
get_elem?-some [] i h = elim h [ ]
get_elem?-some (x ∷ l) zero h = (x, refl)
get_elem?-some (x ∷ l) (suc i) h = get_elem?-some l i (omega arith)

-- The index that a supported mode picks.
abbrev pub chosen : (ℕ → ℕ) → MultiServerDiscovery → SelectMode → ℕ
chosen intn m random_select = intn (length m.servers)
chosen intn m _ = m.index % length m.servers

abbrev pub IsSupported : SelectMode → Type 0
IsSupported (other _) = ⊥
IsSupported _ = Unit

-- If `rand.Intn` keeps below its argument, a list with servers answers each of the two supported modes
-- with the server at the chosen index, and the list stays as it is.
pub get-member :
    (intn : ℕ → ℕ) (m : MultiServerDiscovery) (mode : SelectMode)
    → ((n : ℕ) → 0 < n → intn n < n)
    → 0 < length m.servers
    → IsSupported mode
    → (s : Text) × ((get intn m mode).1 ≡ ok s)
      × (get_elem? m.servers (chosen intn m mode) ≡ some s)
      × ((get intn m mode).0.servers ≡ m.servers)
unfolding get server_at
get-member intn m random_select below some_server u =
    let (s, e) =
      get_elem?-some m.servers (intn (length m.servers)) (below (length m.servers) some_server) in
    (s, ground arith, e, ground arith)
get-member intn m round_robin_select below some_server u =
    let (s, e) = get_elem?-some m.servers (m.index % length m.servers) (omega arith) in
    (s, ground arith, e, ground arith)
get-member intn m (other x) below some_server u = absurd u

-- When `Get` fails nothing changes, and the error says that there is no server if the list is empty,
-- and else that the mode is not supported.
pub get-err :
    (intn : ℕ → ℕ) (m : MultiServerDiscovery) (mode : SelectMode) (e : Text)
    → (get intn m mode).1 ≡ err e
    → ((get intn m mode).0 ≡ m)
      × (e ≡ (
          if length m.servers == 0
          then text "rpc discovery: no available servers"
          else text "rpc discovery: not supported mode"))
unfolding get server_at
get-err intn m mode e h = ground arith
