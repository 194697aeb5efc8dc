-- ===== src/Server/Handling.antt =====
-- SuRPC/server.go: `handleRequest` with the goroutine that it starts, and the channels between them.
-- A send on a channel without a buffer and its receipt are one step of both.
use golang_frame_practice.Common.{ℕ, ◌<◌, List, [], ◌∷◌, ◌++◌, Option, none, some, Text}

-- What is sent back: the reply, the error of the method, or that the time is over.
pub data Sent (B : Type 0) : Type 0 where
  result : B → Sent B
  failure : Text → Sent B
  time_out : Sent B

-- What the method returns, by the branch that the goroutine takes.
abbrev pub sent_for : {B : Type 0} → B → Option Text → Sent B
sent_for reply none = result reply
sent_for reply (some e) = failure e

-- `handleRequest`: at the wait for `called` or the time, before the answer to a time-out, at the
-- wait for `sent`, and after it.
pub data Handler : Type 0 where
  selecting timed_out awaiting_sent finished : Handler

-- The goroutine: in `svc.call`, at the send on `called`, before the answer, at the send on `sent`,
-- and after it.
pub data Worker (B : Type 0) : Type 0 where
  calling : Worker B
  reporting : Sent B → Worker B
  answering : Sent B → Worker B
  announcing : Worker B
  over : Worker B

-- Both, what the method has returned, and the responses that have been written.
pub record Handling (B : Type 0) : Type 0 where
  pub handler : Handler
  pub worker : Worker B
  pub returned : Option (B × Option Text)
  pub responses : List (Sent B)

abbrev pub begin : {B : Type 0} → Handling B
begin = record { handler = selecting; worker = calling; returned = none; responses = [] }

-- The steps of one request, with the limit of the options, of which 0 is none.
pub data Step {B : Type 0} (limit : ℕ) : Handling B → Handling B → Type 0 where
  returns :
      (h : Handler) (m : Option (B × Option Text)) (l : List (Sent B)) (b : B) (e : Option Text)
      → Step limit
          (record { handler = h; worker = calling; returned = m; responses = l })
          (record {
            handler = h;
            worker = reporting (sent_for b e);
            returned = some (b, e);
            responses = l;
          })
  called :
      (x : Sent B) (m : Option (B × Option Text)) (l : List (Sent B))
      → Step limit
          (record { handler = selecting; worker = reporting x; returned = m; responses = l })
          (record { handler = awaiting_sent; worker = answering x; returned = m; responses = l })
  answers :
      (h : Handler) (x : Sent B) (m : Option (B × Option Text)) (l : List (Sent B))
      → Step limit
          (record { handler = h; worker = answering x; returned = m; responses = l })
          (record { handler = h; worker = announcing; returned = m; responses = l ++ x ∷ [] })
  sent :
      (m : Option (B × Option Text)) (l : List (Sent B))
      → Step limit
          (record { handler = awaiting_sent; worker = announcing; returned = m; responses = l })
          (record { handler = finished; worker = over; returned = m; responses = l })
  expires :
      (w : Worker B) (m : Option (B × Option Text)) (l : List (Sent B))
      → 0 < limit
      → Step limit
          (record { handler = selecting; worker = w; returned = m; responses = l })
          (record { handler = timed_out; worker = w; returned = m; responses = l })
  gives_up :
      (w : Worker B) (m : Option (B × Option Text)) (l : List (Sent B))
      → Step limit
          (record { handler = timed_out; worker = w; returned = m; responses = l })
          (record { handler = finished; worker = w; returned = m; responses = l ++ time_out ∷ [] })

pub data Reach {B : Type 0} (limit : ℕ) : Handling B → Type 0 where
  start : Reach limit begin
  later : {s t : Handling B} → Reach limit s → Step limit s t → Reach limit t
