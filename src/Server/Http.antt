-- ===== src/Server/Http.antt =====
-- SuRPC/server.go: the connections of a server, from a listener or taken over from HTTP, and what
-- SuRPC/client.go makes of the answer to `CONNECT`.
use golang_frame_practice.Client.Connect.{
  connected, Network, http_client_on, await, settle_conn, with_conn, dial_conn, attempt,
}
use golang_frame_practice.Client.Dial.{Options, dial_http}
use golang_frame_practice.Client.Handshake.{sent_options, parse_options-sent, await_ok}
use golang_frame_practice.Client.{Client}
use golang_frame_practice.Common.Outcome.{Outcome, ok, err, panics, hangs, exits}
use golang_frame_practice.Common.{
  ℕ, ◌≡◌, ◌≢◌, refl, sym, ap, ◌∙◌, Option, none, some, List, [], ◌∷◌, ◌++◌, Text, text, text_dec,
  arith,
}

-- `Accept`: the connections that it starts goroutines for, until the listener fails.
unfoldable pub accept : {C : Type 0} → List (Outcome C) → List C
accept [] = []
accept (ok conn ∷ rest) = conn ∷ accept rest
accept (_ ∷ rest) = []

-- What `ServeHTTP` does: it answers with a status and a text, or the connection cannot be taken over,
-- or it writes a line and serves the connection.
pub data Upgrade : Type 0 where
  refused : ℕ → Text → Upgrade
  not_taken : Text → Upgrade
  taken : Text → Upgrade

-- `ServeHTTP` for a method; `hijack` is what `Hijack` gives.
unfoldable pub serve_http : Text → Outcome (Unit {0}) → Outcome Upgrade
serve_http method hijack = elim (text_dec method (text "CONNECT")) [
  | no _ ↦ ok (refused 405 (text "405 Method Not Allowed"))
  | yes _ ↦ elim hijack [
    | ok _ ↦ ok (taken (text " HTTP/1.0 " ++ (connected ++ 10 ∷ 10 ∷ [])))
    | err e ↦ ok (not_taken e)
    | panics e ↦ panics e
    | hangs ↦ hangs
    | exits e ↦ exits e
  ]
]

-- The line begins with a blank.
serve_http-blank :
    (line : Text)
    → serve_http (text "CONNECT") (ok tt) ≡ ok (taken line)
    → (rest : Text) × (line ≡ 32 ∷ rest)
unfolding serve_http text_dec golang_frame_practice.Common.ℕ_discrete
serve_http-blank line e = (text "HTTP/1.0 " ++ (connected ++ 10 ∷ 10 ∷ []), ground (arith, e))

module _ {A B C : Type 0} (net : Network C) where
  http_client_on-err :
      (conn : C) (opt : Options) (e : Text)
      → net.read_status conn ≡ err e
      → (http_client_on {A = A} {B = B} net conn opt).1 ≡ err e
  unfolding http_client_on
  http_client_on-err conn opt e r = ground (arith, r)

  settle_conn-result : (conn : C) (r : Outcome (Client A B)) → (settle_conn net conn r).result ≡ r
  unfolding settle_conn
  settle_conn-result conn (ok c) = refl
  settle_conn-result conn (err e) = refl
  settle_conn-result conn (panics e) = refl
  settle_conn-result conn hangs = refl
  settle_conn-result conn (exits msg) = refl

  -- A client comes out of the function that makes one on a connection.
  with_conn-ok :
      (f : C → Options → C × Outcome (Client A B)) (opt : Options) (o : Outcome C)
      (client : Client A B)
      → (with_conn net f opt o).result ≡ ok client
      → (conn : C) × ((f conn opt).1 ≡ ok client)
  unfolding with_conn
  with_conn-ok f opt (ok conn) client e = (
    conn,
    await_ok net conn opt (f conn opt).1 client
        (sym (settle_conn-result (f conn opt).0 (await net conn opt (f conn opt).1)) ∙ e),
  )
  with_conn-ok f opt (err m) client e = cc
  with_conn-ok f opt (panics m) client e = cc
  with_conn-ok f opt hangs client e = cc
  with_conn-ok f opt (exits msg) client e = cc

  -- Suppose that `http.ReadResponse` refuses a status line that begins with a blank, and that each
  -- connection of `DialHTTP` answers with the line that `ServeHTTP` of this server writes to `CONNECT`.
  -- Then `DialHTTP` never returns a client.
  pub attempt-serve_http :
      (read_response : Text → Outcome Text) (line : Text) (o : Option Options) (network addr : Text)
      (client : Client A B)
      → ((rest : Text) → (e : Text) × (read_response (32 ∷ rest) ≡ err e))
      → serve_http (text "CONNECT") (ok tt) ≡ ok (taken line)
      → ((conn : C) → net.read_status conn ≡ read_response line)
      → (attempt net o (dial_http network addr)).result ≢ ok client
  unfolding attempt dial_conn
  attempt-serve_http read_response line o network addr client blank served read e =
      let (rest, p) = serve_http-blank line served in
      let (x, q) = blank rest in
      let opt : Options = sent_options o in
      let (conn, f) =
        with_conn-ok (http_client_on net) opt (net.dial_timeout network addr opt.connect_timeout)
          client (ground (arith, e, parse_options-sent o)) in
      ground (arith, f, http_client_on-err conn opt x (read conn ∙ ap read_response p ∙ q))
