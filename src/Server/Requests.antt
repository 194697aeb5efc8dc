-- ===== src/Server/Requests.antt =====
-- SuRPC/server.go: `ServeConn` and the loop of `ServerCodec`, which reads requests from a codec.
use golang_frame_practice.Client.{Header}
use golang_frame_practice.Client.Dial.{Options}
use golang_frame_practice.Common.Outcome.{Outcome, ok, err, panics, hangs, exits}
use golang_frame_practice.Common.{
  ℕ, zero, suc, ◌==◌, Bool, Option, none, some, List, [], ◌∷◌, ◌++◌, if◌then◌else◌, Text,
}
use golang_frame_practice.Server.{Service, MethodType, Server, find_service, new_replyv}

-- What is written behind a header: a reply, or `invalidRequest`.
pub data Reply (B : Type 0) : Type 0 where
  reply : B → Reply B
  invalid_request : Reply B

-- The interface `codec.Codec` on a state `S`, for arguments `A` and replies `B`.
pub record Codec (S A B : Type 0) : Type 0 where
  pub read_header : S → S × Outcome Header
  pub read_body : S → S × Outcome A
  pub write : Header → Reply B → S → S × Outcome (Unit {0})
  pub close : S → S

-- The struct `request`, once its arguments have been read.
pub record Request (A : Type 0) : Type 0 where
  pub header : Header
  pub svc : Service
  pub m_type : MethodType
  pub argv : A

-- What `readRequest` returns: a nil request with an error, a request with an error, or a request.
pub data Reading (A : Type 0) : Type 0 where
  no_request : Text → Reading A
  bad_request : Header → Text → Reading A
  read : Request A → Reading A
  dies : Text → Reading A
  blocks : Reading A
  ended : Text → Reading A

module _ {S A B : Type 0} (codec : Codec S A B) (server : Server) where
  -- The part of `readRequest` behind `findService`.
  unfoldable pub read_argv : Header → Service → MethodType → S → S × Reading A
  read_argv h svc m_type c = elim (new_replyv m_type) [
    | ok _ ↦
        (let (c', r) = codec.read_body c in
          elim r [
            | ok argv ↦ (c', read (record { header = h; svc = svc; m_type = m_type; argv = argv }))
            | err e ↦ (c', bad_request h e)
            | panics e ↦ (c', dies e)
            | hangs ↦ (c', blocks)
            | exits e ↦ (c', ended e)
          ])
    | panics e ↦ (c, dies e)
    | err e ↦ (c, bad_request h e)
    | hangs ↦ (c, blocks)
    | exits e ↦ (c, ended e)
  ]

  -- The part of `readRequest` behind the header. A service that is not found leaves the body unread.
  unfoldable pub read_behind : Header → S → S × Reading A
  read_behind h c = elim (find_service server h.service_method) [
    | ok (svc, m_type) ↦ read_argv h svc m_type c
    | err e ↦ (c, bad_request h e)
    | panics e ↦ (c, dies e)
    | hangs ↦ (c, blocks)
    | exits e ↦ (c, ended e)
  ]

  -- `readRequest`
  unfoldable pub read_request : S → S × Reading A
  read_request c =
      let (c', r) = codec.read_header c in
      elim r [
        | ok h ↦ read_behind h c'
        | err e ↦ (c', no_request e)
        | panics e ↦ (c', dies e)
        | hangs ↦ (c', blocks)
        | exits e ↦ (c', ended e)
      ]

  -- `sendResponse`: an error of `Write` is dropped.
  unfoldable pub send_response : Header → Reply B → S → S
  send_response h body c = (codec.write h body c).0

  -- The loop of `ServerCodec`, with the requests that it has started goroutines for. It ends when no
  -- header can be read; `hangs` is also a loop whose fuel has run out. The goroutines write to the same
  -- connection, which is not shown here.
  unfoldable pub server_codec : ℕ → S → List (Request A) → Outcome (S × List (Request A))
  server_codec zero c started = hangs
  server_codec (suc fuel) c started =
      let (c', r) = read_request c in
      elim r [
        | no_request _ ↦ ok (codec.close c', started)
        | bad_request h e ↦
            server_codec fuel (send_response (record h { error = e }) invalid_request c') started
        | read request ↦ server_codec fuel c' (started ++ request ∷ [])
        | dies e ↦ panics e
        | blocks ↦ hangs
        | ended e ↦ exits e
      ]

-- The tests of `ServeConn` on the options that it has decoded: `none` closes the connection.
-- `codecs` says which types `CodecFuncMap` has.
unfoldable pub serve_conn : ℕ → (Text → Bool) → Outcome Options → Option Options
serve_conn magic_number codecs (ok option) =
    if option.magic_number == magic_number
    then (if codecs option.codec_type then some option else none)
    else none
serve_conn magic_number codecs _ = none
