-- ===== src/Client/Handshake.antt =====
-- SuRPC/client.go and SuRPC/server.go: what a client sends when it connects, and what a server takes.
use mathlib.Core.Path.{subst}
use golang_frame_practice.Client.Connect.{
  default_option, connected, Network, Attempt, client_on, http_client_on, await, settle_conn,
  with_conn, dial_conn, attempt, connect,
}
use golang_frame_practice.Client.Dial.{Options, parse_options, Dialled, dial_http, dial}
use golang_frame_practice.Client.{Client, new_client, is_available}
use golang_frame_practice.Common.Outcome.{Outcome, ok, err, panics, hangs, exits}
use golang_frame_practice.Common.{
  ◌==◌, ◌≡◌, ◌⊎◌, inl, inr, refl, sym, ap, ◌∙◌, true, false, ◌||◌, Option, none, some, [], ◌∷◌,
  Text, arith,
}
use golang_frame_practice.Server.Requests.{serve_conn}

-- The options that a client sends for an option that can be nil.
abbrev pub sent_options : Option Options → Options
sent_options none = default_option
sent_options (some opt) = record opt {
  magic_number = default_option.magic_number;
  codec_type = elim opt.codec_type [ [] ↦ default_option.codec_type | c ∷ s ↦ c ∷ s ];
}

pub parse_options-sent :
    (o : Option Options) → parse_options default_option (o ∷ []) ≡ ok (sent_options o)
unfolding parse_options
parse_options-sent none = refl
parse_options-sent (some opt) = refl

sent-magic_number : (o : Option Options) → (sent_options o).magic_number ≡ 3927900
sent-magic_number none = refl
sent-magic_number (some opt) = refl

-- The network and the address that a dial is for.
abbrev pub network_of : Dialled → Text × Text
network_of (dial_http network addr) = (network, addr)
network_of (dial network addr) = (network, addr)

new_client-available : (A B : Type 0) → is_available (new_client {A = A} {B = B}) ≡ true
unfolding new_client is_available
new_client-available A B = refl

module _ {C : Type 0} (net : Network C) where
  -- A server that speaks HTTP first answers `CONNECT` with its status.
  abbrev pub Greets : Dialled → C → Type 0
  Greets (dial_http network addr) conn = net.read_status conn ≡ ok connected
  Greets (dial network addr) conn = Unit

module _ {A B C : Type 0} (net : Network C) where
  client_on-new :
      (conn : C) (opt : Options)
      → net.codecs opt.codec_type ≡ true
      → (net.encode conn opt).1 ≡ ok tt
      → client_on {A = A} {B = B} net conn opt ≡ ((net.encode conn opt).0, ok new_client)
  unfolding client_on
  client_on-new conn opt known e = ground (arith, known, e)

  http_client_on-new :
      (conn : C) (opt : Options)
      → net.read_status conn ≡ ok connected
      → net.codecs opt.codec_type ≡ true
      → (net.encode conn opt).1 ≡ ok tt
      → http_client_on {A = A} {B = B} net conn opt ≡ ((net.encode conn opt).0, ok new_client)
  unfolding http_client_on
  http_client_on-new conn opt greets known e =
      ground (arith, greets, client_on-new conn opt known e)

  dial_conn-ok :
      (f : C → Options → C × Outcome (Client A B)) (network addr : Text) (opt : Options)
      (conn conn' : C) (client : Client A B)
      → net.dial_timeout network addr opt.connect_timeout ≡ ok conn
      → ((opt.connect_timeout == 0) || net.in_time conn) ≡ true
      → f conn opt ≡ (conn', ok client)
      → dial_conn net f network addr (ok opt)
        ≡ record { result = ok client; conn = some conn'; closed = false }
  unfolding dial_conn with_conn await settle_conn
  dial_conn-ok f network addr opt conn conn' client d t e = ground (arith, d, t, e)

  attempt-new :
      (o : Option Options) (d : Dialled) (conn : C)
      → net.dial_timeout (network_of d).0 (network_of d).1 (sent_options o).connect_timeout
        ≡ ok conn
      → Greets net d conn
      → net.codecs (sent_options o).codec_type ≡ true
      → (net.encode conn (sent_options o)).1 ≡ ok tt
      → (((sent_options o).connect_timeout == 0) || net.in_time conn) ≡ true
      → attempt {A = A} {B = B} net o d ≡ record {
        result = ok new_client;
        conn = some (net.encode conn (sent_options o)).0;
        closed = false;
      }
  unfolding attempt
  attempt-new o (dial_http network addr) conn d g k e t = rw (parse_options-sent o) (
      dial_conn-ok (http_client_on net) network addr (sent_options o) conn _ new_client d t
        (http_client_on-new conn (sent_options o) g k e))
  attempt-new o (dial network addr) conn d g k e t = rw (parse_options-sent o) (
      dial_conn-ok (client_on net) network addr (sent_options o) conn _ new_client d t
        (client_on-new conn (sent_options o) k e))

  -- If the network connects, a server over HTTP answers with the status that is expected, the type of the
  -- codec is known, the options can be written, and the client is made in time or without a limit, then
  -- `Dial` and `DialHTTP` give a new client over an open connection. If the JSON decoder reads from a
  -- connection the options with a known codec that the encoder has written there, then a server that decodes what the client
  -- has left on this connection, and knows the same codecs, serves it, with the client's options or the
  -- default ones, completed by the magic number and the default codec.
  pub attempt-serve_conn :
      (decode : C → Outcome Options) (o : Option Options) (d : Dialled) (conn : C)
      → ((opt : Options)
          → net.codecs opt.codec_type ≡ true
          → (net.encode conn opt).1 ≡ ok tt
          → decode (net.encode conn opt).0 ≡ ok opt)
      → net.dial_timeout (network_of d).0 (network_of d).1 (sent_options o).connect_timeout
        ≡ ok conn
      → Greets net d conn
      → net.codecs (sent_options o).codec_type ≡ true
      → (net.encode conn (sent_options o)).1 ≡ ok tt
      → (((sent_options o).connect_timeout == 0) || net.in_time conn) ≡ true
      → (conn' : C) × (attempt {A = A} {B = B} net o d
          ≡ record { result = ok new_client; conn = some conn'; closed = false })
        × (serve_conn 3927900 net.codecs (decode conn') ≡ some (sent_options o))
  unfolding serve_conn
  attempt-serve_conn decode o d conn reads q g k e t = (
    (net.encode conn (sent_options o)).0,
    attempt-new o d conn q g k e t,
    ground (arith, k, reads (sent_options o) k e, sent-magic_number o),
  )

  -- How a dial ends, by its result: with a client that can be used over an open connection, or with an
  -- error and no connection left open.
  abbrev pub Ended : Attempt C A B → Outcome (Client A B) → Type 0
  Ended r (ok client) =
      (is_available client ≡ true) × (conn : C) × (r.conn ≡ some conn) × (r.closed ≡ false)
  Ended r (err e) = (r.conn ≡ none) ⊎ (r.closed ≡ true)
  Ended r _ = Unit

  client_on_new :
      (conn : C) (opt : Options) (client : Client A B)
      → (client_on net conn opt).1 ≡ ok client
      → new_client ≡ client
  unfolding client_on
  client_on_new conn opt client e = ground (arith, e)

  http_client_on_new :
      (conn : C) (opt : Options) (client : Client A B)
      → (http_client_on net conn opt).1 ≡ ok client
      → new_client ≡ client
  unfolding http_client_on
  http_client_on_new conn opt client e = ground (arith, e, client_on_new conn opt client)

  pub await_ok :
      (conn : C) (opt : Options) (r : Outcome (Client A B)) (client : Client A B)
      → await net conn opt r ≡ ok client
      → r ≡ ok client
  unfolding await
  await_ok conn opt r client e = ground (arith, e)

  settle_conn-Ended :
      (conn : C) (r : Outcome (Client A B))
      → ((client : Client A B) → r ≡ ok client → new_client ≡ client)
      → Ended (settle_conn net conn r) (settle_conn net conn r).result
  unfolding settle_conn
  settle_conn-Ended conn (ok client) h =
      (ap is_available (sym (h client refl)) ∙ new_client-available A B, conn, refl, refl)
  settle_conn-Ended conn (err e) h = inr refl
  settle_conn-Ended conn (panics e) h = tt
  settle_conn-Ended conn hangs h = tt
  settle_conn-Ended conn (exits msg) h = tt

  with_conn-Ended :
      (f : C → Options → C × Outcome (Client A B)) (opt : Options) (o : Outcome C)
      → ((conn : C) (client : Client A B) → (f conn opt).1 ≡ ok client → new_client ≡ client)
      → Ended (with_conn net f opt o) (with_conn net f opt o).result
  unfolding with_conn
  with_conn-Ended f opt (ok conn) h =
      settle_conn-Ended (f conn opt).0 (await net conn opt (f conn opt).1)
        (λ client e. h conn client (await_ok conn opt (f conn opt).1 client e))
  with_conn-Ended f opt (err e) h = inl refl
  with_conn-Ended f opt (panics e) h = tt
  with_conn-Ended f opt hangs h = tt
  with_conn-Ended f opt (exits msg) h = tt

module _ (A B : Type 0) {C : Type 0} (net : Network C) where
  -- Whatever the network does: a dial that ends with a client leaves its connection open, and the client
  -- can be used; a dial that ends with an error has got no connection or has closed it.
  pub attempt-Ended :
      (o : Option Options) (d : Dialled)
      → Ended net (attempt {A = A} {B = B} net o d) (attempt {A = A} {B = B} net o d).result
  unfolding attempt dial_conn
  attempt-Ended o (dial_http network addr) = rw (parse_options-sent o) (
      with_conn-Ended net (http_client_on net) (sent_options o) _
        (λ conn client. http_client_on_new net conn (sent_options o) client))
  attempt-Ended o (dial network addr) = rw (parse_options-sent o) (
      with_conn-Ended net (client_on net) (sent_options o) _
        (λ conn client. client_on_new net conn (sent_options o) client))

  -- What an `XClient` relies on.
  pub connect-available :
      (o : Option Options) (d : Dialled) (client : Client A B)
      → connect net o d ≡ ok client
      → is_available client ≡ true
  unfolding connect
  connect-available o d client e =
      (subst (Ended net (attempt {A = A} {B = B} net o d)) e (attempt-Ended o d)).0
