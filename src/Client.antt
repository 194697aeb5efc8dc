-- ===== src/Client.antt =====
-- SuRPC/client.go: the calls of a client, from `Go` over the pending map to their completion.
pub mod Pending
pub mod Receive
pub mod Run
pub mod Dial
pub mod Unavailable
pub mod Context
pub mod Connect
pub mod Handshake
mod Tests
use golang_frame_practice.Common.Assoc.{insert, delete}
use golang_frame_practice.Common.Outcome.{Outcome, ok, err, panics, hangs}
use golang_frame_practice.Common.{
  ℕ, zero, suc, ◌+◌, ◌%◌, ◌^◌, Bool, true, false, not, ◌&&◌, ◌||◌, Option, none, some, List, [],
  ◌∷◌, ◌++◌, map, lookup, ℕ_discrete, if◌then◌else◌, Text, text,
}

-- The struct `Call` with arguments `A` and a reply `B`. `id` tells apart the pointers that a user has.
pub record Call (A B : Type 0) : Type 0 where
  pub id : ℕ
  pub seq : ℕ
  pub service_method : Text
  pub args : A
  pub reply : Option B
  pub error : Option Text

-- `codec.Header`
pub record Header : Type 0 where
  pub service_method : Text
  pub seq : ℕ
  pub error : Text

-- The struct `Client`. `finished` are the calls that went into their channel `Done`, and `written` is
-- what the codec has been given.
pub record Client (A B : Type 0) : Type 0 where
  pub seq : ℕ
  pub pending : List (ℕ × Call A B)
  pub closing : Bool
  pub shutdown : Bool
  pub finished : List (Call A B)
  pub written : List (Header × A)

abbrev pub err_shutdown : Text
err_shutdown = text "Connection is shutdown"

-- What `ReadBody` makes of a body for a reply.
pub data Body (B : Type 0) : Type 0 where
  decoded : B → Body B
  broken : Text → Body B

-- What the codec reads next: `ReadHeader` fails, or there is a header and a body. The body is read as
-- a reply or skipped, and either can fail.
pub data Incoming (B : Type 0) : Type 0 where
  no_header : Text → Incoming B
  message : Header → Body B → Option Text → Incoming B

module _ {A B : Type 0} where
  -- `newCientCodec`
  unfoldable pub new_client : Client A B
  new_client = record {
    seq = 1;
    pending = [];
    closing = false;
    shutdown = false;
    finished = [];
    written = [];
  }

  -- `Close`; `closed` is what the codec's `Close` gives.
  unfoldable pub close : Outcome (Unit {0}) → Client A B → Client A B × Outcome (Unit {0})
  close closed c =
      if c.shutdown then (c, err err_shutdown) else (record c { closing = true }, closed)

  unfoldable pub is_available : Client A B → Bool
  is_available c = not c.shutdown && not c.closing

  -- `registerCall`
  unfoldable pub register_call : Call A B → Client A B → Client A B × Outcome ℕ
  register_call call c = if c.shutdown || c.closing then (c, err err_shutdown) else (
    record c {
      pending = insert ℕ_discrete c.seq (record call { seq = c.seq }) c.pending;
      seq = (c.seq + 1) % 2 ^ 64;
    },
    ok c.seq,
  )

  -- `removeCall`
  unfoldable pub remove_call : ℕ → Client A B → Client A B × Option (Call A B)
  remove_call seq c =
      (record c { pending = delete ℕ_discrete seq c.pending }, lookup ℕ_discrete seq c.pending)

  -- `call.done`, on a channel that has room, as the one that `Call` makes: with a channel of the user's that
  -- is full, Go blocks here until it is read.
  unfoldable pub finish : Call A B → Client A B → Client A B
  finish call c = record c { finished = c.finished ++ call ∷ [] }

  -- The loop of `terminateCalls`.
  unfoldable pub finish_all : Text → List (ℕ × Call A B) → Client A B → Client A B
  finish_all e [] c = c
  finish_all e ((_, call) ∷ calls) c =
      finish_all e calls (finish (record call { error = some e }) c)

  -- `terminateCalls`: the calls stay in the map.
  unfoldable pub terminate_calls : Text → Client A B → Client A B
  terminate_calls e c = finish_all e c.pending (record c { shutdown = true })

  -- The part of `send` behind `registerCall`. The error of `Write` is dropped, since the test behind
  -- it is on the error of `registerCall`, which is nil there.
  unfoldable pub send_registered : Call A B → Client A B × Outcome ℕ → Client A B
  send_registered call (c, ok seq) = record c {
    written =
        c.written
        ++ (record { service_method = call.service_method; seq = seq; error = [] }, call.args) ∷ [];
  }
  send_registered call (c, err e) = finish (record call { error = some e }) c
  send_registered call (c, _) = c

  unfoldable pub send : Call A B → Client A B → Client A B
  send call c = send_registered call (register_call call c)

  -- `Go` with a channel of a capacity, or with nil: a channel without a buffer panics.
  unfoldable pub go : Option ℕ → Call A B → Client A B → Client A B × Outcome (Unit {0})
  go (some zero) call c = (c, panics (text "rpc client: done channel is unbuffered."))
  go (some (suc n)) call c = (send call c, ok tt)
  go none call c = (send call c, ok tt)

  -- A round of `receive` for the call with the sequence number of the header, by the error in the
  -- header. The second result is `err`; `errorf` is `fmt.Errorf` without arguments.
  unfoldable pub settle :
      (Text → Text) → Text → Body B → Option Text → Call A B → Client A B → Client A B × Option Text
  settle errorf (x ∷ s) body skipped call c =
      (finish (record call { error = some (errorf (x ∷ s)) }) c, skipped)
  settle errorf [] (decoded reply) skipped call c =
      (finish (record call { reply = some reply }) c, none)
  settle errorf [] (broken e) skipped call c =
      (finish (record call { error = some (text "reading body error: " ++ e) }) c, some e)

  -- A round of the loop of `receive`.
  unfoldable pub receive_round : (Text → Text) → Incoming B → Client A B → Client A B × Option Text
  receive_round errorf (no_header e) c = (c, some e)
  receive_round errorf (message h body skipped) c =
      let (c', r) = remove_call h.seq c in
      elim r [ none ↦ (c', skipped) | some call ↦ settle errorf h.error body skipped call c' ]

  -- `receive`, for what the codec reads; at the end of the list it waits for more.
  unfoldable pub receive : (Text → Text) → List (Incoming B) → Client A B → Client A B
  receive errorf [] c = c
  receive errorf (m ∷ rest) c =
      let (c', r) = receive_round errorf m c in
      let go_on = receive errorf rest c' in elim r [ none ↦ go_on | some e ↦ terminate_calls e c' ]
