-- ===== src/Server/Unread.antt =====
-- SuRPC/server.go: a request for an unknown method leaves its body on the connection.
use golang_frame_practice.Client.{Header}
use golang_frame_practice.Common.Outcome.{ok, err}
use golang_frame_practice.Common.{ℕ, suc, ◌≡◌, ◌∙◌, List, Text, arith}
use golang_frame_practice.Server.{Server, find_service}
use golang_frame_practice.Server.Requests.{
  Codec, Request, invalid_request, bad_request, no_request, read_behind, read_request,
  send_response, server_codec,
}

module _ {S A B : Type 0} (codec : Codec S A B) (server : Server) where
  unknown_request :
      (c c' : S) (h : Header) (e : Text)
      → codec.read_header c ≡ (c', ok h)
      → find_service server h.service_method ≡ err e
      → read_request codec server c ≡ (c', bad_request h e)
  unfolding read_request read_behind
  unknown_request c c' h e r f = ground (arith, r, f)

  ended_request :
      (c c' : S) (x : Text)
      → codec.read_header c ≡ (c', err x)
      → read_request codec server c ≡ (c', no_request x)
  unfolding read_request
  ended_request c c' x r = ground (arith, r)

  unknown_round :
      (fuel : ℕ) (c c' : S) (h : Header) (e : Text) (started : List (Request A))
      → read_request codec server c ≡ (c', bad_request h e)
      → server_codec codec server (suc fuel) c started
        ≡ server_codec codec server fuel
            (send_response codec server (record h { error = e }) invalid_request c')
            started
  unfolding server_codec
  unknown_round fuel c c' h e started r = ground (arith, r)

  ended_round :
      (fuel : ℕ) (c c' : S) (x : Text) (started : List (Request A))
      → read_request codec server c ≡ (c', no_request x)
      → server_codec codec server (suc fuel) c started ≡ ok (codec.close c', started)
  unfolding server_codec
  ended_round fuel c c' x started r = ground (arith, r)

  -- If a header names no method of the server, and the codec, once the error has been written, cannot
  -- read a header from the body that has been left unread, then the loop ends and closes the
  -- connection: whatever other requests stand behind that body are not served.
  pub server_codec-unread :
      (fuel : ℕ) (c c' c'' : S) (h : Header) (e x : Text) (started : List (Request A))
      → codec.read_header c ≡ (c', ok h)
      → find_service server h.service_method ≡ err e
      → codec.read_header (codec.write (record h { error = e }) invalid_request c').0 ≡ (c'', err x)
      → server_codec codec server (suc (suc fuel)) c started ≡ ok (codec.close c'', started)
  unfolding send_response
  server_codec-unread fuel c c' c'' h e x started r f lost =
      unknown_round (suc fuel) c c' h e started (unknown_request c c' h e r f)
      ∙ ended_round fuel _ c'' x started (ended_request _ c'' x lost)
