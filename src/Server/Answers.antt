-- ===== src/Server/Answers.antt =====
-- SuRPC/server.go: each request is answered once.
use golang_frame_practice.Common.{
  ℕ, ◌<◌, ◌≤◌, ◌≡◌, ◌≢◌, ◌⊎◌, inl, inr, refl, ap, List, [], ◌∷◌, Option, none, some, Text, arith,
  length,
}
use golang_frame_practice.Server.Handling.{
  Sent, result, failure, time_out, sent_for, Handler, selecting, timed_out, awaiting_sent, finished,
  Worker, calling, reporting, answering, announcing, over, Handling, Step, returns, called, answers,
  sent, expires, gives_up, Reach, start, later,
}

-- The answer for what the method returns: its reply, or its error if it has one.
abbrev pub Says : {B : Type 0} → B → Option Text → Sent B → Type 0
Says b none x = x ≡ result b
Says b (some e) x = x ≡ failure e

-- The answer of a method that has returned.
abbrev pub IsOf : {B : Type 0} → Option (B × Option Text) → Sent B → Type 0
IsOf none x = ⊥
IsOf (some (b, e)) x = Says b e x

-- Where both stand together, and what has been written there.
abbrev Agree :
    {B : Type 0} → ℕ → Handler → Worker B → Option (B × Option Text) → List (Sent B) → Type 0
Agree limit selecting calling m l = l ≡ []
Agree limit selecting (reporting x) m l = (l ≡ []) × IsOf m x
Agree limit timed_out calling m l = (l ≡ []) × (0 < limit)
Agree limit timed_out (reporting x) m l = (l ≡ []) × (0 < limit)
Agree limit awaiting_sent (answering x) m l = (l ≡ []) × IsOf m x
Agree {B} limit awaiting_sent announcing m l = (x : Sent B) × (l ≡ x ∷ []) × IsOf m x
Agree limit finished calling m l = (l ≡ time_out ∷ []) × (0 < limit)
Agree limit finished (reporting x) m l = (l ≡ time_out ∷ []) × (0 < limit)
Agree {B} limit finished over m l = (x : Sent B) × (l ≡ x ∷ []) × IsOf m x
Agree limit _ _ m l = ⊥

module _ {B : Type 0} (limit : ℕ) where
  sent_for-Says : (b : B) (e : Option Text) → Says b e (sent_for b e)
  sent_for-Says b none = refl
  sent_for-Says b (some e) = refl

  Step-Agree :
      {s t : Handling B}
      → Step limit s t
      → Agree limit s.handler s.worker s.returned s.responses
      → Agree limit t.handler t.worker t.returned t.responses
  Step-Agree (returns selecting m l b e) h = (h, sent_for-Says b e)
  Step-Agree (returns timed_out m l b e) h = h
  Step-Agree (returns awaiting_sent m l b e) h = absurd h
  Step-Agree (returns finished m l b e) h = h
  Step-Agree (called x m l) h = h
  Step-Agree (answers selecting x m l) h = absurd h
  Step-Agree (answers timed_out x m l) h = absurd h
  Step-Agree (answers awaiting_sent x m l) h = (x, ground (arith, h.0), h.1)
  Step-Agree (answers finished x m l) h = absurd h
  Step-Agree (sent m l) h = h
  Step-Agree (expires calling m l p) h = (h, p)
  Step-Agree (expires (reporting x) m l p) h = (h.0, p)
  Step-Agree (expires (answering x) m l p) h = absurd h
  Step-Agree (expires announcing m l p) h = absurd h
  Step-Agree (expires over m l p) h = absurd h
  Step-Agree (gives_up calling m l) h = (ground (arith, h.0), h.1)
  Step-Agree (gives_up (reporting x) m l) h = (ground (arith, h.0), h.1)
  Step-Agree (gives_up (answering x) m l) h = absurd h
  Step-Agree (gives_up announcing m l) h = absurd h
  Step-Agree (gives_up over m l) h = absurd h

  Reach-Agree :
      {s : Handling B} → Reach limit s → Agree limit s.handler s.worker s.returned s.responses
  Reach-Agree start = refl
  Reach-Agree (later r st) = Step-Agree st (Reach-Agree r)

  -- The one answer of a request: the method has returned, the answer is its reply or its error, and its
  -- goroutine has ended; or, with a limit, it is that the time is over, and the goroutine has not ended.
  abbrev pub Answered : Handling B → Type 0
  Answered s =
      (x : Sent B) × (s.responses ≡ x ∷ [])
      × ((IsOf s.returned x × (s.worker ≡ over))
          ⊎ ((x ≡ time_out) × (0 < limit) × (s.worker ≢ over)))

  Agree-once :
      (h : Handler) (w : Worker B) (m : Option (B × Option Text)) (l : List (Sent B))
      → Agree limit h w m l
      → (length l ≤ 1)
        × ((h ≢ finished)
            ⊎ Answered (record { handler = h; worker = w; returned = m; responses = l }))
  Agree-once selecting calling m l q = (omega (arith, ap length q), inl (λ e. cc))
  Agree-once selecting (reporting x) m l q = (omega (arith, ap length q.0), inl (λ e. cc))
  Agree-once selecting (answering x) m l q = absurd q
  Agree-once selecting announcing m l q = absurd q
  Agree-once selecting over m l q = absurd q
  Agree-once timed_out calling m l q = (omega (arith, ap length q.0), inl (λ e. cc))
  Agree-once timed_out (reporting x) m l q = (omega (arith, ap length q.0), inl (λ e. cc))
  Agree-once timed_out (answering x) m l q = absurd q
  Agree-once timed_out announcing m l q = absurd q
  Agree-once timed_out over m l q = absurd q
  Agree-once awaiting_sent calling m l q = absurd q
  Agree-once awaiting_sent (reporting x) m l q = absurd q
  Agree-once awaiting_sent (answering x) m l q = (omega (arith, ap length q.0), inl (λ e. cc))
  Agree-once awaiting_sent announcing m l q = (omega (arith, ap length q.1), inl (λ e. cc))
  Agree-once awaiting_sent over m l q = absurd q
  Agree-once finished calling m l q =
      (omega (arith, ap length q.0), inr (time_out, q.0, inr (refl, q.1, λ e. cc)))
  Agree-once finished (reporting x) m l q =
      (omega (arith, ap length q.0), inr (time_out, q.0, inr (refl, q.1, λ e. cc)))
  Agree-once finished (answering x) m l q = absurd q
  Agree-once finished announcing m l q = absurd q
  Agree-once finished over m l q = (omega (arith, ap length q.1), inr (q.0, q.1, inl (q.2, refl)))

  -- In every state that a request reaches, at most one response has been written; once the handler has
  -- finished, exactly one, which is the reply that the method has returned, or its error if it has returned
  -- one, with its goroutine ended, or, if there is a limit, that the time is over, and then the goroutine
  -- has not ended, however long one waits.
  pub Reach-Answered :
      {s : Handling B}
      → Reach limit s
      → (length s.responses ≤ 1) × ((s.handler ≢ finished) ⊎ Answered s)
  Reach-Answered {s} r = Agree-once s.handler s.worker s.returned s.responses (Reach-Agree r)
