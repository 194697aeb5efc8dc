-- ===== src/XClient/Tests.antt =====
-- SuRPC/xclient/xclient.go: an XClient over a registry with one server, which can be dialled.
use golang_frame_practice.Client.{Client, new_client, close, is_available}
use golang_frame_practice.Client.Dial.{Options, Dialled, x_dial}
use golang_frame_practice.Common.Assoc.{insert, delete}
use golang_frame_practice.Common.Outcome.{Outcome, ok}
use golang_frame_practice.Common.Strings.{split, push_byte, trim_space}
use golang_frame_practice.Common.{
  ℕ, ◌⊎◌, ◌<◌, ◌≡◌, ◌≢◌, refl, true, false, Option, none, some, [], ◌∷◌, lookup, ℕ_discrete, Text,
  text, text_dec, arith,
}
use golang_frame_practice.Discovery.{
  SuRegistryDiscovery, round_robin_select, append_server, append_servers, refresh, su_get_all,
  get_all, copy_servers,
}
use golang_frame_practice.XClient.Broadcasts.{
  starting, over, Cast, started, connects, fails, replies, Reach, here, later,
}
use golang_frame_practice.XClient.Cache.{IsValid}
use golang_frame_practice.XClient.Dials.{dial-Obtained}
use golang_frame_practice.XClient.Keeps.{Obtained}
use golang_frame_practice.XClient.Errors.{IsBlamed, refresh-IsBlamed}
use golang_frame_practice.XClient.Replies.{IsReplied, Reach-IsReplied}
use golang_frame_practice.XClient.Run.{dials, closes, run, new_x_client-IsValid, run-IsValid_close}
use golang_frame_practice.XClient.{
  XClient, new_x_client, discard, discard_all, close_all, kept, keep, Merged, unmerged, merge_error,
  merge_reply,
}

abbrev closed : ℕ → Outcome (Unit {0})
closed c = ok tt

abbrev connect : Option Options → Dialled → Outcome (Client ℕ ℕ)
connect o d = ok new_client

abbrev http_get : Text → Outcome Text
http_get registry = ok (text "tcp@a")

abbrev same_text : Text → Text
same_text s = s

-- The definitions that a run computes with.
program : Unit {0}
unfolding new_client close is_available x_dial insert delete split push_byte trim_space lookup
    ℕ_discrete text_dec append_server append_servers refresh su_get_all get_all copy_servers
    golang_frame_practice.XClient.dial new_x_client discard discard_all close_all kept keep unmerged
    merge_error merge_reply run golang_frame_practice.XClient.Run.happen
program = tt

abbrev discovery : SuRegistryDiscovery
discovery = record {
  multi = record { servers = []; index = 0 };
  registry = text "http://r";
  timeout = 10;
  last_update = 0;
}

abbrev fresh : XClient ℕ ℕ
fresh = new_x_client discovery none round_robin_select (λ c. new_client)

fresh-IsValid : IsValid fresh
fresh-IsValid =
    new_x_client-IsValid same_text closed connect discovery none round_robin_select
      (λ c. new_client)

run-IsValid_close_example :
    IsValid (run same_text closed connect fresh (dials (text "tcp@a") ∷ []))
    × ((run same_text closed connect fresh (dials (text "tcp@a") ∷ closes ∷ [])).clients ≡ [])
    × ((c : ℕ)
        → c < (run same_text closed connect fresh (dials (text "tcp@a") ∷ closes ∷ [])).next
        → is_available
            ((run same_text closed connect fresh (dials (text "tcp@a") ∷ closes ∷ [])).heap c)
          ≡ false)
run-IsValid_close_example =
    run-IsValid_close same_text closed connect discovery none round_robin_select (λ c. new_client)
      (dials (text "tcp@a") ∷ [])

-- Every new client can be used.
opens :
    (o : Option Options) (d : Dialled) (client : Client ℕ ℕ)
    → connect o d ≡ ok client
    → is_available client ≡ true
unfolding program
opens o d client e = ground (arith, e)

abbrev dialled : XClient ℕ ℕ × Outcome ℕ
dialled = golang_frame_practice.XClient.dial closed connect (text "tcp@a") fresh

dial-Obtained_example :
    Obtained closed (text "tcp@a") dialled.0 dialled.1
    × ((k : Text)
        → k ≢ text "tcp@a"
        → lookup text_dec k dialled.0.clients ≡ lookup text_dec k fresh.clients)
    × ((c : ℕ)
        → lookup text_dec (text "tcp@a") fresh.clients ≡ some c
        → is_available (fresh.heap c) ≡ true
        → dialled ≡ (fresh, ok c))
dial-Obtained_example = dial-Obtained closed connect (text "tcp@a") fresh opens fresh-IsValid

-- The goroutine of the empty address fails, and that of the server replies.
abbrev asked : XClient ℕ ℕ
asked = record fresh { d = (su_get_all http_get 20 discovery).0 }

abbrev ended : Cast ℕ ℕ ℕ
ended = record {
  x_client = (golang_frame_practice.XClient.dial closed connect (text "tcp@a") asked).0;
  merged = merge_reply 5 (
      merge_error (text "rpc client err: wrong format '', expected protocol@addr") (unmerged true));
  tasks = over [] ∷ over (text "tcp@a") ∷ [];
}

ended-Reach : Reach same_text closed connect (started asked true ([] ∷ text "tcp@a" ∷ [])) ended
unfolding program
ended-Reach =
    later
      (later
        (later here (
          fails asked asked (unmerged true) [] (starting (text "tcp@a") ∷ []) []
            (text "rpc client err: wrong format '', expected protocol@addr") refl))
        (connects asked (golang_frame_practice.XClient.dial closed connect (text "tcp@a") asked).0 _
          (over [] ∷ []) [] (text "tcp@a") 0 refl))
      (replies _ _ (over [] ∷ []) [] (text "tcp@a") 0 5)

refresh-IsBlamed_example : IsBlamed ended.merged
unfolding program
refresh-IsBlamed_example =
    refresh-IsBlamed same_text closed connect http_get fresh 20 (text "tcp@a") true
      ([] ∷ text "tcp@a" ∷ []) ended (omega arith) refl fresh-IsValid refl ended-Reach
      (([], refl), ((text "tcp@a", refl), tt))

Reach-IsReplied_example : IsBlamed ended.merged ⊎ IsReplied ended.merged
Reach-IsReplied_example =
    Reach-IsReplied same_text closed connect asked [] (text "tcp@a" ∷ []) ended ended-Reach
      (([], refl), ((text "tcp@a", refl), tt))
