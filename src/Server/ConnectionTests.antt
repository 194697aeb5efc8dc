-- ===== src/Server/ConnectionTests.antt =====
-- SuRPC/server.go and SuRPC/debug.go: two calls on one connection, one with a time-out, and the page.
use golang_frame_practice.Client.{Header}
use golang_frame_practice.Common.Outcome.{Outcome, ok}
use golang_frame_practice.Common.{
  ℕ, ◌≤◌, ◌≡◌, ◌≢◌, ◌⊎◌, refl, none, some, ite, ◌+◌, ◌%◌, ◌^◌, Option, List, [], ◌∷◌, text,
  text_dec, Text, arith,
}
use golang_frame_practice.Server.{Method, Server, new_replyv}
use golang_frame_practice.Server.Handling.{
  result, time_out, finished, reporting, returns, expires, gives_up, calling, called, answers, sent,
  over, Worker,
}
use golang_frame_practice.Server.Debug.{page, shown, debug_services, call_all, call_all-page}
use golang_frame_practice.Server.Requests.{
  Request, read_request, read_behind, read_argv, send_response, reply, invalid_request,
}
use golang_frame_practice.Server.Connection.{
  Connection, closed, response, send_all, Move, reads, rejects, refuses, ends, closes, handles, Run,
  start, then_,
}
use golang_frame_practice.Server.Counts.{read_times, written_times}
use golang_frame_practice.Server.Served.{Run-served, closed-silent}
use golang_frame_practice.Server.Tests.{program, Item, header, body, codec, request, sum_type}

-- A server with one method, and what a client sends: a call of it, and one of another method.
abbrev foo_server : Server
foo_server = record {
  service_map =
      (text "Foo", record { name = text "Foo"; method = (text "Sum", sum_type) ∷ [] }) ∷ [];
}

abbrev two_calls : List Item
two_calls =
    header (record request { service_method = text "Foo.Sum" })
    ∷ body 3
    ∷ header (record request { seq = 2 })
    ∷ []

abbrev sum_request : Request ℕ
sum_request = record {
  header = record request { service_method = text "Foo.Sum" };
  svc = record { name = text "Foo"; method = (text "Sum", sum_type) ∷ [] };
  m_type = sum_type;
  argv = 3;
}

abbrev lost : Header
lost = record request { seq = 2; error = text "rpc server: can not find method: Sub" }

abbrev served : Connection (List Item) ℕ ℕ
served = record {
  state = [];
  loop = closed;
  requests =
      (
        sum_request,
        record {
          handler = finished;
          worker = over;
          returned = some (7, none);
          responses = result 7 ∷ [];
        },
      )
      ∷ [];
  headers = sum_request.header ∷ record request { seq = 2 } ∷ [];
  written = (lost, invalid_request) ∷ (sum_request.header, reply 7) ∷ [];
}

-- Two calls of the method show on the page.
abbrev echo : Method → ℕ → Outcome ℕ
echo m n = ok n

abbrev counted : Server
counted = call_all echo (text "Foo") (text "Sum") (3 ∷ 4 ∷ []) foo_server

call_all-page_example :
    page (text "Foo") (text "Sum") counted
    ≡ ite
        (text_dec (text "Foo") (text "Foo"))
        (ite
          (text_dec (text "Sum") (text "Sum"))
          (some ((0 + 2) % 2 ^ 64))
          (page (text "Foo") (text "Sum") foo_server))
        (page (text "Foo") (text "Sum") foo_server)
unfolding program shown debug_services
call_all-page_example =
    call_all-page echo (text "Foo") (text "Sum") (text "Foo") (text "Sum") (3 ∷ 4 ∷ []) foo_server 0
      refl (omega arith)

-- The second call is refused before the first is answered.
served-Run : Run codec foo_server 0 [] two_calls served
unfolding program read_request read_behind read_argv new_replyv send_response response send_all
served-Run =
    then_
      (then_
        (then_
          (then_
            (then_
              (then_
                (then_
                  (then_ (then_ start (reads _ _ sum_request refl refl))
                    (handles _ [] [] sum_request _ _ [] refl (returns _ _ [] 7 none) refl))
                  (rejects _ _ (record request { seq = 2 })
                    (text "rpc server: can not find method: Sub") refl refl))
                (refuses _ _ _ refl))
              (handles _ [] [] sum_request _ _ [] refl (called _ _ []) refl))
            (handles _ [] [] sum_request _ _ (result 7 ∷ []) refl (answers _ _ _ []) refl))
          (handles _ [] [] sum_request _ _ [] refl (sent _ _) refl))
        (ends _ _ _ refl refl))
      (closes _ refl (refl, tt))

Run-served_example :
    (written_times 1 served.written ≤ read_times 1 served.headers)
    × ((served.loop ≢ closed) ⊎ (written_times 1 served.written ≡ read_times 1 served.headers))
Run-served_example = Run-served codec foo_server 0 [] 1 served-Run

-- A connection that has been closed after a time-out, with the method still running or not.
abbrev after_time_out : Worker ℕ → Option (ℕ × Option Text) → Connection (List Item) ℕ ℕ
after_time_out w m = record {
  state = [];
  loop = closed;
  requests =
      (
        sum_request,
        record { handler = finished; worker = w; returned = m; responses = time_out ∷ [] },
      )
      ∷ [];
  headers = sum_request.header ∷ [];
  written =
      (record request { service_method = text "Foo.Sum"; error = text "late" }, invalid_request)
      ∷ [];
}

late-Run :
    Run codec foo_server 5
      (text "late")
      (header (record request { service_method = text "Foo.Sum" }) ∷ body 3 ∷ [])
      (after_time_out calling none)
unfolding program read_request read_behind read_argv new_replyv send_response response send_all
late-Run =
    then_
      (then_
        (then_
          (then_ (then_ start (reads _ _ sum_request refl refl))
            (handles _ [] [] sum_request _ _ [] refl (expires calling none [] (omega arith)) refl))
          (handles _ [] [] sum_request _ _ (time_out ∷ []) refl (gives_up calling none []) refl))
        (ends _ _ _ refl refl))
      (closes _ refl (refl, tt))

-- The method returns when the connection is closed.
late :
    Move codec foo_server 5
      (text "late")
      (after_time_out calling none)
      (after_time_out (reporting (result 7)) (some (7, none)))
unfolding response send_all
late =
    handles (after_time_out calling none) [] [] sum_request _ _ [] refl (returns _ _ _ 7 none) refl

closed-silent_example :
    ((after_time_out (reporting (result 7)) (some (7, none))).written
      ≡ (after_time_out calling none).written)
    × ((after_time_out (reporting (result 7)) (some (7, none))).state
        ≡ (after_time_out calling none).state)
    × ((after_time_out (reporting (result 7)) (some (7, none))).loop ≡ closed)
closed-silent_example = closed-silent codec foo_server 5 (text "late") late-Run refl late
