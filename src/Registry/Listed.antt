-- ===== src/Registry/Listed.antt =====
-- SuRPC/registry/registry.go: a server that sends heartbeats stays in the list.
use golang_frame_practice.Common.Assoc.{lookup-insert_self}
use golang_frame_practice.Common.Outcome.{Outcome, ok, err, panics, hangs, exits}
use golang_frame_practice.Common.{
  ℕ, ◌+◌, ◌≤◌, ◌<◌, ◌≡◌, ◌≢◌, ◌⊎◌, refl, ◌∙◌, Bool, true, false, some, List, [], lookup, Text,
  text_dec, arith,
}
use golang_frame_practice.Registry.Alive.{lists, lists-alive}
use golang_frame_practice.Registry.Heartbeat.{
  period, send_heart_beat, next_tick, World, heartbeat, Step, passes, ticks, requests, finds, drops,
  Reach, here, later,
}
use golang_frame_practice.Registry.Requests.{IsRegistry, serve_http-IsRegistry, put_server-insert}
use golang_frame_practice.Registry.{SuRegistry, alive_servers, post, serve_http}
use golang_frame_practice.Registry.Kept.{
  serve_http-post, gap, Outlasts, alive-kept, serve_http-timeout, Kept, requests-Kept, finds-Kept,
  drops-Kept,
}

module _ (addr : Text) (duration delay : ℕ) where
  beat_stored :
      (now : ℕ) (s : SuRegistry)
      → addr ≢ []
      → IsRegistry s
      → lookup text_dec addr (serve_http (λ b. now) now s post addr).0.servers
        ≡ some (record { addr = addr; start = now })
  beat_stored now s n h = rw (serve_http-post now s addr n) (
      rw (put_server-insert now s addr h)
        (lookup-insert_self text_dec addr (record { addr = addr; start = now }) s.servers))

  next_tick-ok :
      (tick d : ℕ) (answer : Outcome (Unit {0}))
      → next_tick duration tick answer ≡ some d
      → (answer ≡ ok tt) × (d ≡ tick + period duration)
  unfolding next_tick
  next_tick-ok tick d (ok u) e = (refl, ground (arith, e))
  next_tick-ok tick d (err m) e = cc
  next_tick-ok tick d (panics m) e = cc
  next_tick-ok tick d hangs e = cc
  next_tick-ok tick d (exits msg) e = cc

  -- A heartbeat that the server takes for sent has arrived, within the delay of its tick, or before the
  -- ticker has started.
  sent-Kept :
      (timeout now tick : ℕ) (s : SuRegistry) (doomed : List Text) (arrived : Bool)
      (answer : Outcome (Unit {0}))
      → addr ≢ []
      → tick ≤ now + delay
      → now ≤ tick + delay
      → lists addr doomed ≡ false
      → (answer ≡ ok tt → arrived ≡ true)
      → IsRegistry s
      → s.timeout ≡ timeout
      → Kept addr duration delay timeout (record {
        now = now;
        registry = (send_heart_beat arrived answer now addr s).0;
        next = next_tick duration tick answer;
        doomed = doomed;
      })
  unfolding send_heart_beat
  sent-Kept timeout now tick s doomed true answer n early late free h r t = record {
    registry = serve_http-IsRegistry (λ b. now) now s post addr r;
    same = serve_http-timeout addr duration delay now s post addr ∙ t;
    heard = λ d e.
        let (_, q) = next_tick-ok tick d answer e in
        (
          omega (arith, q, late),
          record { addr = addr; start = now },
          beat_stored now s n r,
          omega arith,
          omega (arith, q, early),
          free,
        );
  }
  sent-Kept timeout now tick s doomed false answer n early late free h r t = record {
    registry = r;
    same = t;
    heard = λ d e. let (a, _) = next_tick-ok tick d answer e in absurd (ground (arith, h a));
  }

  -- As long as the next tick is known, the time has not run away, and nobody is about to delete the server.
  Step-Kept :
      (timeout : ℕ) (w u : World)
      → addr ≢ []
      → (timeout ≡ 0) ⊎ (gap addr duration delay < timeout)
      → Step duration delay addr w u
      → Kept addr duration delay timeout w
      → Kept addr duration delay timeout u
  Step-Kept timeout w u n o (passes t pos on) k = record {
    registry = k.registry;
    same = k.same;
    heard = λ d e.
        let (_, item, l, old, due, free) = k.heard d e in
        (on d e, item, l, omega (arith, old, pos), due, free);
  }
  Step-Kept timeout w u n o (ticks arrived answer d e on h) k =
      let (late, _, _, _, _, free) = k.heard d e in
      sent-Kept timeout w.now d w.registry w.doomed arrived answer n (omega (arith, on)) late free h
        k.registry k.same
  Step-Kept timeout w u n o (requests m a) k =
      requests-Kept addr duration delay timeout w m a (rw k.same o) k
  Step-Kept timeout w u n o (finds a item l dead) k =
      finds-Kept addr duration delay timeout w a item (rw k.same o) l dead k
  Step-Kept timeout w u n o (drops front back a q) k =
      drops-Kept addr duration delay timeout w front back a q k

  Reach-Kept :
      (timeout : ℕ) (w u : World)
      → addr ≢ []
      → (timeout ≡ 0) ⊎ (gap addr duration delay < timeout)
      → Reach duration delay addr w u
      → Kept addr duration delay timeout w
      → Kept addr duration delay timeout u
  Reach-Kept timeout w u n o here k = k
  Reach-Kept timeout w u n o (later {v} r st) k =
      Step-Kept timeout v u n o st (Reach-Kept timeout w v n o r k)

  -- A server with an address that is not empty starts its heartbeats, each of which reaches the registry
  -- within a delay of its tick, if the server takes it for sent, and the ticker starts within the delay of
  -- the first. The registry has no timeout or one longer than the period and twice the delay, and no
  -- request has found the server to be over and not deleted it yet. Then, whatever other requests come in
  -- between, one behind the other or while `aliveServers` runs, as long as the goroutine runs, a call of
  -- `aliveServers` at any time lists the server.
  pub heartbeat-lists :
      (now lag : ℕ) (s : SuRegistry) (doomed : List Text) (arrived : Bool)
      (answer : Outcome (Unit {0})) (w : World) (d : ℕ)
      → addr ≢ []
      → lag ≤ delay
      → Outlasts addr duration delay s
      → lists addr doomed ≡ false
      → (answer ≡ ok tt → arrived ≡ true)
      → IsRegistry s
      → Reach duration delay addr (heartbeat arrived answer lag duration addr now s doomed) w
      → w.next ≡ some d
      → lists addr (alive_servers (λ b. w.now) w.registry).1 ≡ true
  unfolding heartbeat
  heartbeat-lists now lag s doomed arrived answer w d n short o free h r path running =
      let k : Kept addr duration delay s.timeout w = Reach-Kept s.timeout _ w n o path (
        sent-Kept s.timeout now (now + lag) s doomed arrived answer n (omega (arith, short))
          (omega arith) free h r refl) in
      let (t, item, l, old, due, _) = k.heard d running in
      lists-alive (λ b. w.now) w.registry addr k.registry.distinct
      ∙ alive-kept addr duration delay w.now w.registry item k.registry (rw k.same o) l
          (omega (arith, t, due))
