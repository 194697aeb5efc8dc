-- ===== src/Client/Connect.antt =====
-- SuRPC/client.go: `Dial` and `DialHTTP`, over a network that is a parameter.
use golang_frame_practice.Client.Dial.{Options, parse_options, Dialled, dial_http, dial}
use golang_frame_practice.Client.{Client, new_client}
use golang_frame_practice.Common.Outcome.{Outcome, ok, err, panics, hangs, exits, ◌>>=◌}
use golang_frame_practice.Common.{
  ℕ, ◌*◌, ◌==◌, Bool, true, false, ◌||◌, Option, none, some, [], ◌∷◌, ◌++◌, if◌then◌else◌, Text,
  text, text_dec,
}

-- `DefaultOption`
abbrev pub default_option : Options
default_option = record {
  magic_number = 3927900;
  codec_type = text "application/gob";
  connect_timeout = 10 * 1_000_000_000;
  handle_timeout = 0;
}

abbrev pub connected : Text
connected = text "200 connected to SuRPC"

-- What `Dial` uses: `net.DialTimeout`, the JSON encoder on a connection, with what it leaves there, the
-- status that a server answers to `CONNECT`, whether a client is made before the time is over, the types that `CodecFuncMap` has, and
-- how a duration is printed.
pub record Network (C : Type 0) : Type 0 where
  pub dial_timeout : Text → Text → ℕ → Outcome C
  pub encode : C → Options → C × Outcome (Unit {0})
  pub read_status : C → Outcome Text
  pub in_time : C → Bool
  pub codecs : Text → Bool
  pub show_duration : ℕ → Text

-- The result of `dialTimeout`, the connection that it got, and whether it has closed it.
pub record Attempt (C A B : Type 0) : Type 0 where
  pub result : Outcome (Client A B)
  pub conn : Option C
  pub closed : Bool

module _ {A B C : Type 0} (net : Network C) where
  -- `NewClient`, with the connection as it leaves it.
  unfoldable pub client_on : C → Options → C × Outcome (Client A B)
  client_on conn opt =
      if net.codecs opt.codec_type
      then (let (conn', r) = net.encode conn opt in (conn', r >>= λ _. ok new_client))
      else (conn, err (text "invalid codec type: " ++ opt.codec_type))

  -- `NewHTTPClient`
  unfoldable pub http_client_on : C → Options → C × Outcome (Client A B)
  http_client_on conn opt = elim (net.read_status conn) [
    | ok status ↦ elim (text_dec status connected) [
      | yes _ ↦ client_on conn opt
      | no _ ↦ (conn, err (text "unexpected HTTP response: " ++ status))
    ]
    | err e ↦ (conn, err e)
    | panics e ↦ (conn, panics e)
    | hangs ↦ (conn, hangs)
    | exits e ↦ (conn, exits e)
  ]

  -- The wait of `dialTimeout` for the client or the time.
  unfoldable pub await : C → Options → Outcome (Client A B) → Outcome (Client A B)
  await conn opt r =
      if (opt.connect_timeout == 0) || net.in_time conn
      then r
      else err (
          text "rpc client: connect timeout, expected within "
          ++ net.show_duration opt.connect_timeout)

  -- The deferred function of `dialTimeout`: a call that returns without a client closes the connection.
  unfoldable pub settle_conn : C → Outcome (Client A B) → Attempt C A B
  settle_conn conn (err e) = record { result = err e; conn = some conn; closed = true }
  settle_conn conn r = record { result = r; conn = some conn; closed = false }

  -- `dialTimeout` with what `net.DialTimeout` gives.
  unfoldable pub with_conn :
      (C → Options → C × Outcome (Client A B)) → Options → Outcome C → Attempt C A B
  with_conn f opt (ok conn) = let (conn', r) = f conn opt in settle_conn conn' (await conn opt r)
  with_conn f opt (err e) = record { result = err e; conn = none; closed = false }
  with_conn f opt (panics e) = record { result = panics e; conn = none; closed = false }
  with_conn f opt hangs = record { result = hangs; conn = none; closed = false }
  with_conn f opt (exits msg) = record { result = exits msg; conn = none; closed = false }

  -- `dialTimeout` with what `parseOptions` gives.
  unfoldable pub dial_conn :
      (C → Options → C × Outcome (Client A B)) → Text → Text → Outcome Options → Attempt C A B
  dial_conn f network addr (ok opt) =
      with_conn f opt (net.dial_timeout network addr opt.connect_timeout)
  dial_conn f network addr (err e) = record { result = err e; conn = none; closed = false }
  dial_conn f network addr (panics e) = record { result = panics e; conn = none; closed = false }
  dial_conn f network addr hangs = record { result = hangs; conn = none; closed = false }
  dial_conn f network addr (exits msg) = record { result = exits msg; conn = none; closed = false }

  -- `Dial` and `DialHTTP` with one option, which can be nil.
  unfoldable pub attempt : Option Options → Dialled → Attempt C A B
  attempt o (dial_http network addr) =
      dial_conn http_client_on network addr (parse_options default_option (o ∷ []))
  attempt o (dial network addr) =
      dial_conn client_on network addr (parse_options default_option (o ∷ []))

  -- `XDial`, which an `XClient` calls with its option.
  unfoldable pub connect : Option Options → Dialled → Outcome (Client A B)
  connect o d = (attempt o d).result
