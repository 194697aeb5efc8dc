-- ===== src/Server/Served.antt =====
-- SuRPC/server.go: each header that is read on a connection gets one response, counted when it is handed
-- to `sendResponse`, which logs an error of the codec and goes on.
use mathlib.Core.List.{append-nil}
use mathlib.Core.Path.{subst}
use golang_frame_practice.Common.{
  ℕ, ◌+◌, ◌-◌, ◌≤◌, ◌≡◌, ◌≢◌, ◌⊎◌, inl, inr, refl, ap, ◌∙◌, List, [], ◌∷◌, ◌++◌, map, Text, arith,
  All, length, length-append, ite, ℕ_discrete,
}
use golang_frame_practice.Server.{Server}
use golang_frame_practice.Server.Answers.{Reach-Answered}
use golang_frame_practice.Server.Handling.{
  Sent, finished, Handling, begin, Step, returns, called, answers, sent, expires, gives_up, Reach,
  start, later,
}
use golang_frame_practice.Server.Requests.{invalid_request, Codec, Request}
use golang_frame_practice.Server.Connection.{
  closed, Connection, opened, response, Move, reads, rejects, refuses, ends, closes, handles,
  send_all, Run, then_,
}
use golang_frame_practice.Server.Counts.{
  read_times, written_times, owed, pending, times-append, pending-append, All-append, All-middle,
  All-at, Loop-cases, written_times-map,
}

module _ {B : Type 0} where
  -- What a step of a request writes is what it still owes, at most one response.
  pending-step :
      (limit q n : ℕ) (now next : Handling B) (new : List (Sent B))
      → Reach limit next
      → next.responses ≡ now.responses ++ new
      → ite (ℕ_discrete n q) (1 - length now.responses) 0
        ≡ ite (ℕ_discrete n q) (length new) 0 + ite (ℕ_discrete n q) (1 - length next.responses) 0
  pending-step limit q n now next new r e =
      let total = ap length e ∙ length-append now.responses new in
      ground (arith, total, (Reach-Answered limit r).0)

  Step-finished :
      {limit : ℕ} {now next : Handling B}
      → Step limit now next
      → now.handler ≡ finished
      → (next.handler ≡ finished)
  Step-finished (returns h m l b e) f = f
  Step-finished (called x m l) f = cc
  Step-finished (answers h x m l) f = f
  Step-finished (sent m l) f = cc
  Step-finished (expires w m l p) f = cc
  Step-finished (gives_up w m l) f = cc

  finished-one :
      {limit : ℕ} {s : Handling B} → Reach limit s → s.handler ≡ finished → length s.responses ≡ 1
  finished-one {limit} {s} r f = elim (Reach-Answered limit r).1 [
    | inl n ↦ absurd (n f)
    | inr (x, e, _) ↦ ap length e
  ]

  -- A finished request writes nothing more.
  Step-silent :
      {limit : ℕ} {now next : Handling B} (new : List (Sent B))
      → Reach limit now
      → Step limit now next
      → now.handler ≡ finished
      → next.responses ≡ now.responses ++ new
      → new ≡ []
  Step-silent {limit} {now} {next} [] r st f e = refl
  Step-silent {limit} {now} {next} (x ∷ new) r st f e =
      let total = ap length e ∙ length-append now.responses (x ∷ new) in
      absurd
        (omega (arith, total, finished-one r f, finished-one (later r st) (Step-finished st f)))

module _ {S A B : Type 0} (codec : Codec S A B) (server : Server) (limit : ℕ) (over : Text) where
  record IsKept (s : Connection S A B) : Type 0 where
    counted :
        (q : ℕ)
        → read_times q s.headers ≡ written_times q s.written + pending q s.requests + owed q s.loop
    reached : All (λ (x : Request A × Handling B). Reach limit x.1) s.requests
    ended :
        s.loop ≡ closed → All (λ (x : Request A × Handling B). x.1.handler ≡ finished) s.requests

  opened-IsKept : (c : S) → IsKept (opened c)
  opened-IsKept c = record { counted = λ q. omega arith; reached = tt; ended = λ e. tt }

  Move-IsKept : {s t : Connection S A B} → Move codec server limit over s t → IsKept s → IsKept t
  Move-IsKept (reads s c r l e) k = record {
    counted = λ q. ground (
      arith,
      l,
      k.counted q,
      times-append (λ h. h.seq) q s.headers (r.header ∷ []),
      pending-append q s.requests ((r, begin) ∷ []),
    );
    reached = All-append _ s.requests ((r, begin) ∷ []) k.reached (start, tt);
    ended = λ f. cc;
  }
  Move-IsKept (rejects s c h e l f) k = record {
    counted = λ q. ground (arith, l, k.counted q, times-append (λ h. h.seq) q s.headers (h ∷ []));
    reached = k.reached;
    ended = λ f. cc;
  }
  Move-IsKept (refuses s h e l) k = record {
    counted = λ q. ground (
      arith,
      l,
      k.counted q,
      times-append (λ w. w.0.seq) q s.written ((record h { error = e }, invalid_request) ∷ []),
    );
    reached = k.reached;
    ended = λ f. cc;
  }
  Move-IsKept (ends s c e l f) k = record {
    counted = λ q. ground (arith, l, k.counted q);
    reached = k.reached;
    ended = λ f. cc;
  }
  Move-IsKept (closes s l a) k = record {
    counted = λ q. ground (arith, l, k.counted q);
    reached = k.reached;
    ended = λ f. a;
  }
  Move-IsKept (handles s pre post r now next new e st n) k =
      let all = subst (All (λ (x : Request A × Handling B). Reach limit x.1)) e k.reached in
      let reached = All-at _ (r, now) pre post all in
      record {
        counted = λ q.
            let before = ap (pending q) e ∙ pending-append q pre ((r, now) ∷ post) in
            let after = pending-append q pre ((r, next) ∷ post) in
            let step = pending-step limit q r.header.seq now next new (later reached st) n in
            let written =
              times-append (λ w. w.0.seq) q s.written (map (response over r.header) new)
              ∙ ap (λ k. written_times q s.written + k) (written_times-map over q r.header new) in
            omega (arith, k.counted q, before, after, step, written);
        reached = All-middle _ (r, now) (r, next) pre post (λ a. later a st) all;
        ended = λ f.
            All-middle _ (r, now) (r, next) pre post (Step-finished st)
              (subst (All (λ (x : Request A × Handling B). x.1.handler ≡ finished)) e (k.ended f));
      }

  Run-IsKept : {c : S} {s : Connection S A B} → Run codec server limit over c s → IsKept s
  Run-IsKept {c} Run.start = opened-IsKept c
  Run-IsKept (then_ r m) = Move-IsKept m (Run-IsKept r)

  pending-finished :
      (q : ℕ) (l : List (Request A × Handling B))
      → All (λ (x : Request A × Handling B). Reach limit x.1) l
      → All (λ (x : Request A × Handling B). x.1.handler ≡ finished) l
      → pending q l ≡ 0
  pending-finished q [] a f = refl
  pending-finished q ((r, h) ∷ l) a f =
      ground (arith, finished-one a.0 f.0, pending-finished q l a.1 f.1)

  -- In every state of a connection, for each sequence number, no more responses have been handed to
  -- `sendResponse` than headers read, and once the connection has been closed, as many, whatever the order in which the
  -- goroutines of the requests ran and whichever of them ran out of time.
  pub Run-served :
      {c : S} {s : Connection S A B} (q : ℕ)
      → Run codec server limit over c s
      → (written_times q s.written ≤ read_times q s.headers)
        × ((s.loop ≢ closed) ⊎ (written_times q s.written ≡ read_times q s.headers))
  Run-served {c} {s} q r =
      let k = Run-IsKept r in
      (
        omega (arith, k.counted q),
        elim (Loop-cases s.loop) [
          | inl n ↦ inl n
          | inr e ↦ inr (
              omega (
                arith,
                k.counted q,
                pending-finished q s.requests k.reached (k.ended e),
                ap (owed q) e,
              ))
        ],
      )

  -- After the connection has been closed, a step hands no response to `sendResponse` and leaves the codec as it is.
  pub closed-silent :
      {c : S} {s t : Connection S A B}
      → Run codec server limit over c s
      → s.loop ≡ closed
      → Move codec server limit over s t
      → (t.written ≡ s.written) × (t.state ≡ s.state) × (t.loop ≡ closed)
  unfolding send_all
  closed-silent run f (reads s c r l e) = cc
  closed-silent run f (rejects s c h e l g) = cc
  closed-silent run f (refuses s h e l) = cc
  closed-silent run f (ends s c e l g) = cc
  closed-silent run f (closes s l a) = cc
  closed-silent run f (handles s pre post r now next new e st n) =
      let k = Run-IsKept run in
      let reached = subst (All (λ (x : Request A × Handling B). Reach limit x.1)) e k.reached in
      let done =
        subst (All (λ (x : Request A × Handling B). x.1.handler ≡ finished)) e (k.ended f) in
      let p =
        Step-silent new (All-at _ (r, now) pre post reached) st (All-at _ (r, now) pre post done)
          n in
      (
        ap (λ n. s.written ++ map (response over r.header) n) p ∙ append-nil s.written,
        ap (λ n. send_all codec server limit over (map (response over r.header) n) s.state) p,
        f,
      )
