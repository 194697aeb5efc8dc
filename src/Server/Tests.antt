-- ===== src/Server/Tests.antt =====
-- SuRPC/server.go: a server with one service, over a connection of headers and numbers.
use golang_frame_practice.Client.{Header}
use golang_frame_practice.Common.Assoc.{insert}
use golang_frame_practice.Common.Outcome.{Outcome, ok, err}
use golang_frame_practice.Common.{
  ℕ, ◌≤◌, ◌≡◌, ◌≢◌, ◌⊎◌, refl, Bool, true, false, ◌&&◌, leb, none, some, List, [], ◌∷◌, ◌++◌, Text,
  text, text_dec, arith, length, lookup, ℕ_discrete,
}
use golang_frame_practice.Server.{
  GoType, Method, MethodType, Service, new_server, is_exported_or_builtin_type, suitable,
  register_methods, new_service, store_service, split_last, find_service,
}
use golang_frame_practice.Server.Answers.{Answered, Reach-Answered}
use golang_frame_practice.Server.Handling.{
  result, time_out, finished, reporting, Handling, returns, expires, gives_up, Reach, later,
  calling,
}
use golang_frame_practice.Client.Connect.{Network, connected, attempt}
use golang_frame_practice.Client.Dial.{dial_http}
use golang_frame_practice.Client.{new_client}
use golang_frame_practice.Server.Http.{serve_http, attempt-serve_http}
use golang_frame_practice.Server.Lookup.{find_service-store_service}
use golang_frame_practice.Server.Requests.{Codec, server_codec}
use golang_frame_practice.Server.Unread.{server_codec-unread}

-- A capital letter in front.
abbrev pub exported : Text → Bool
exported [] = false
exported (c ∷ s) = leb b'A' c && leb c b'Z'

abbrev pub args : GoType
args = record { id = 1; name = text "Args"; pkg_path = text "main"; has_elem = false }

abbrev pub pointer : GoType
pointer = record { id = 2; name = []; pkg_path = []; has_elem = true }

abbrev pub error_value : GoType
error_value = record { id = 0; name = text "error"; pkg_path = []; has_elem = false }

abbrev pub sum : Method
sum = record {
  name = text "Sum";
  inputs = pointer ∷ args ∷ pointer ∷ [];
  outputs = error_value ∷ [];
}

abbrev pub sum_type : MethodType
sum_type = record { method = sum; arg_type = args; reply_type = pointer; num_calls = 0 }

-- The definitions that a run computes with.
unfoldable pub program : Unit {0}
unfolding is_exported_or_builtin_type suitable register_methods new_service store_service split_last
    find_service insert lookup text_dec ℕ_discrete
program = tt

find_service-store_service_example :
    (svc : Service) × (new_service exported 0 (text "Foo") (sum ∷ []) ≡ ok svc)
    × ((store_service new_server svc).1 ≡ ok tt)
    × (find_service (store_service new_server svc).0 (text "Foo" ++ 46 ∷ text "Sum")
        ≡ ok (svc, sum_type))
unfolding program
find_service-store_service_example =
    find_service-store_service exported 0 new_server (text "Foo") [] [] sum sum_type refl refl tt
      (refl, (refl, (refl, tt))) refl

-- A connection: what a client has sent, a header or an argument at a time.
pub data Item : Type 0 where
  header : Header → Item
  body : ℕ → Item

abbrev pub next_header : List Item → List Item × Outcome Header
next_header (header h ∷ c) = (c, ok h)
next_header c = (c, err (text "gob: type mismatch"))

abbrev pub next_body : List Item → List Item × Outcome ℕ
next_body (body n ∷ c) = (c, ok n)
next_body c = (c, err (text "gob: type mismatch"))

abbrev pub codec : Codec (List Item) ℕ ℕ
codec = record {
  read_header = next_header;
  read_body = next_body;
  write = λ h r c. (c, ok tt);
  close = λ c. c;
}

abbrev pub request : Header
request = record { service_method = text "Foo.Sub"; seq = 1; error = [] }

-- The second request names a method that there may be, and is not read.
server_codec-unread_example :
    server_codec codec new_server 7 (header request ∷ body 3 ∷ header request ∷ body 4 ∷ []) []
    ≡ ok (body 3 ∷ header request ∷ body 4 ∷ [], [])
unfolding program
server_codec-unread_example =
    server_codec-unread codec new_server 5 (header request ∷ body 3 ∷ header request ∷ body 4 ∷ [])
      (body 3 ∷ header request ∷ body 4 ∷ []) (body 3 ∷ header request ∷ body 4 ∷ []) request
      (text "rpc server: can not find service: Foo") (text "gob: type mismatch") [] refl refl refl

-- The time is over before the method returns.
abbrev slow : Handling ℕ
slow = record {
  handler = finished;
  worker = reporting (result 5);
  returned = some (5, none);
  responses = time_out ∷ [];
}

slow-Reach : Reach 10 slow
slow-Reach =
    later
      (later (later Reach.start (expires calling none [] (omega arith))) (gives_up calling none []))
      (returns finished none (time_out ∷ []) 5 none)

Reach-Answered_example :
    (length slow.responses ≤ 1) × ((slow.handler ≢ finished) ⊎ Answered 10 slow)
Reach-Answered_example = Reach-Answered 10 slow-Reach

-- The answer to `CONNECT`, and a reader that wants a protocol in front.
abbrev line : Text
line = text " HTTP/1.0 " ++ (connected ++ 10 ∷ 10 ∷ [])

abbrev read_response : Text → Outcome Text
read_response [] = err (text "unexpected EOF")
read_response (c ∷ s) = elim (ℕ_discrete c 32) [
  | yes _ ↦ err (text "malformed HTTP status code")
  | no _ ↦ ok s
]

abbrev over_http : Network ℕ
over_http = record {
  dial_timeout = λ n a t. ok 3;
  encode = λ c o. (c, ok tt);
  read_status = λ c. read_response line;
  in_time = λ c. true;
  codecs = λ t. true;
  show_duration = λ t. [];
}

attempt-serve_http_example :
    (attempt {A = ℕ} {B = ℕ} over_http none (dial_http (text "tcp") (text "a"))).result
    ≢ ok new_client
unfolding program serve_http
attempt-serve_http_example =
    attempt-serve_http over_http read_response line none (text "tcp") (text "a") new_client
      (λ rest. (text "malformed HTTP status code", refl)) refl (λ c. refl)
