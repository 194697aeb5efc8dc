-- ===== src/Client/Tests.antt =====
-- SuRPC/client.go: a call that is answered, one that fails with the connection, and one after it.
use golang_frame_practice.Common.Assoc.{insert, delete}
use golang_frame_practice.Common.Outcome.{Outcome, ok, err}
use golang_frame_practice.Server.Requests.{serve_conn}
use golang_frame_practice.Common.{
  lookup, Option, ℕ, ◌+◌, ◌<◌, ◌≡◌, refl, true, false, none, some, List, [], ◌∷◌, map, Text, text,
  arith, if◌then◌else◌,
}
use golang_frame_practice.Client.{
  Call, decoded, no_header, message, new_client, err_shutdown, register_call, send_registered, go,
  send, remove_call, finish, finish_all, terminate_calls, settle, receive_round, receive,
}
use golang_frame_practice.Client.Connect.{default_option, connected, Network, attempt}
use golang_frame_practice.Client.Context.{cancel, cancel-times}
use golang_frame_practice.Client.Dial.{Options, dial_http}
use golang_frame_practice.Client.Handshake.{attempt-serve_conn}
use golang_frame_practice.Client.Pending.{times, waiting}
use golang_frame_practice.Client.Run.{Step, go_call, incoming, step, run, issued, run-times}

abbrev sum : ℕ → Call ℕ ℕ
sum id = record {
  id = id;
  seq = 0;
  service_method = text "Foo.Sum";
  args = 1;
  reply = none;
  error = none;
}

abbrev as_is : Text → Text
as_is s = s

-- Two calls, the answer to the second, the end of the connection, and one more call.
abbrev talk : List (Step ℕ ℕ)
talk =
    go_call (sum 5)
    ∷ go_call (sum 6)
    ∷ incoming
        (message (record { service_method = text "Foo.Sum"; seq = 2; error = [] }) (decoded 3) none)
    ∷ incoming (no_header (text "EOF"))
    ∷ go_call (sum 7)
    ∷ []

-- The definitions that a run computes with.
program : Unit {0}
unfolding golang_frame_practice.Client.Context.cancel run step go new_client register_call
    send_registered send remove_call finish finish_all terminate_calls settle receive_round receive
    insert delete lookup issued
program = tt

-- They complete in the order 6, 5, 7.
completed :
    map {B = ℕ × (Option ℕ × Option Text)}
      (λ (c : Call ℕ ℕ). (c.id, (c.reply, c.error)))
      (run as_is new_client talk).finished
    ≡ (6, (some 3, none)) ∷ (5, (none, some (text "EOF"))) ∷ (7, (none, some err_shutdown)) ∷ []
unfolding program golang_frame_practice.Common.ℕ_discrete
completed = refl

run-times_example :
    times 5 (run as_is new_client talk).finished
      + (if (run as_is new_client talk).shutdown
          then 0
          else waiting 5 (run as_is new_client talk).pending)
    ≡ issued 5 talk
run-times_example = run-times as_is talk 5 (omega arith)

-- The call 5 is given up, and its answer comes afterwards.
abbrev answer : Step ℕ ℕ
answer =
    incoming
      (message (record { service_method = text "Foo.Sum"; seq = 1; error = [] }) (decoded 3) none)

cancel-times_example :
    times 5
      (run as_is
        (cancel 1 (text "deadline") (run as_is new_client (go_call (sum 5) ∷ []))).0
        (answer ∷ [])).finished
    ≡ 0
unfolding program golang_frame_practice.Common.ℕ_discrete
cancel-times_example =
    cancel-times as_is (go_call (sum 5) ∷ []) (answer ∷ []) 5 1 (text "deadline")
      (record (sum 5) { seq = 1 }) (omega arith) refl refl refl refl refl

-- A network in which all goes well; a connection is the options that have been written to it.
abbrev network : Network (List Options)
network = record {
  dial_timeout = λ n a t. ok [];
  encode = λ c o. (o ∷ c, ok tt);
  read_status = λ c. ok connected;
  in_time = λ c. true;
  codecs = λ t. true;
  show_duration = λ t. [];
}

abbrev decode : List Options → Outcome Options
decode [] = err (text "EOF")
decode (o ∷ c) = ok o

attempt-serve_conn_example :
    (conn : List Options) × (attempt {A = ℕ} {B = ℕ} network none
        (dial_http (text "tcp") (text "a"))
      ≡ record { result = ok new_client; conn = some conn; closed = false })
    × (serve_conn 3927900 network.codecs (decode conn) ≡ some default_option)
attempt-serve_conn_example =
    attempt-serve_conn network decode none (dial_http (text "tcp") (text "a")) [] (λ opt k e. refl)
      refl refl refl refl refl
