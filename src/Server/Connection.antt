-- ===== src/Server/Connection.antt =====
-- SuRPC/server.go: one connection: the loop of `ServerCodec`, the goroutines that it starts for its
-- requests, and the responses that all of them write, as steps in any order. A panic ends the
-- program, so no step comes after one.
use golang_frame_practice.Client.{Header}
use golang_frame_practice.Common.{ℕ, ◌≡◌, List, [], ◌∷◌, ◌++◌, map, Text, All}
use golang_frame_practice.Server.{Server}
use golang_frame_practice.Server.Handling.{
  Sent, result, failure, time_out, finished, Handling, begin, Step,
}
use golang_frame_practice.Server.Requests.{
  Reply, reply, invalid_request, Codec, Request, no_request, bad_request, read, read_request,
  send_response,
}

-- The loop: before a header, before the response to a request that it refuses, at `wg.Wait`, and after
-- `cc.Close`.
pub data Loop : Type 0 where
  reading : Loop
  refusing : Header → Text → Loop
  waiting closed : Loop

-- `headers` are the headers that have been read and `written` what `sendResponse` was called with,
-- also where the codec fails to write it.
pub record Connection (S A B : Type 0) : Type 0 where
  pub state : S
  pub loop : Loop
  pub requests : List (Request A × Handling B)
  pub headers : List Header
  pub written : List (Header × Reply B)

abbrev pub opened : {S A B : Type 0} → S → Connection S A B
opened c = record { state = c; loop = reading; requests = []; headers = []; written = [] }

-- The arguments of `sendResponse` for an answer; `over` is the text of a time-out.
unfoldable pub response : {B : Type 0} → Text → Header → Sent B → Header × Reply B
response over h (result b) = (h, reply b)
response over h (failure e) = (record h { error = e }, invalid_request)
response over h time_out = (record h { error = over }, invalid_request)

module _ {S A B : Type 0} (codec : Codec S A B) (server : Server) (limit : ℕ) (over : Text) where
  unfoldable pub send_all : List (Header × Reply B) → S → S
  send_all [] c = c
  send_all ((h, body) ∷ l) c = send_all l (send_response codec server h body c)

  pub data Move : Connection S A B → Connection S A B → Type 0 where
    reads :
        (s : Connection S A B) (c : S) (r : Request A)
        → s.loop ≡ reading
        → read_request codec server s.state ≡ (c, read r)
        → Move s (record s {
          state = c;
          requests = s.requests ++ (r, begin) ∷ [];
          headers = s.headers ++ r.header ∷ [];
        })
    rejects :
        (s : Connection S A B) (c : S) (h : Header) (e : Text)
        → s.loop ≡ reading
        → read_request codec server s.state ≡ (c, bad_request h e)
        → Move s (record s { state = c; loop = refusing h e; headers = s.headers ++ h ∷ [] })
    refuses :
        (s : Connection S A B) (h : Header) (e : Text)
        → s.loop ≡ refusing h e
        → Move s (record s {
          state = send_response codec server (record h { error = e }) invalid_request s.state;
          loop = reading;
          written = s.written ++ (record h { error = e }, invalid_request) ∷ [];
        })
    ends :
        (s : Connection S A B) (c : S) (e : Text)
        → s.loop ≡ reading
        → read_request codec server s.state ≡ (c, no_request e)
        → Move s (record s { state = c; loop = waiting })
    closes :
        (s : Connection S A B)
        → s.loop ≡ waiting
        → All (λ (x : Request A × Handling B). x.1.handler ≡ finished) s.requests
        → Move s (record s { state = codec.close s.state; loop = closed })
    handles :
        (s : Connection S A B) (pre post : List (Request A × Handling B)) (r : Request A)
        (now next : Handling B) (new : List (Sent B))
        → s.requests ≡ pre ++ (r, now) ∷ post
        → Step limit now next
        → next.responses ≡ now.responses ++ new
        → Move s (record s {
          state = send_all (map (response over r.header) new) s.state;
          requests = pre ++ (r, next) ∷ post;
          written = s.written ++ map (response over r.header) new;
        })

  pub data Run (c : S) : Connection S A B → Type 0 where
    start : Run c (opened c)
    then_ : {s t : Connection S A B} → Run c s → Move s t → Run c t
