-- ===== src/Registry/Heartbeat.antt =====
-- SuRPC/registry/registry.go: the heartbeats of a server, between other requests to the registry.
use golang_frame_practice.Common.Assoc.{delete}
use golang_frame_practice.Common.Outcome.{Outcome, ok}
use golang_frame_practice.Common.{
  ℕ, ◌+◌, ◌*◌, ◌-◌, ◌==◌, ◌≤◌, ◌≡◌, Bool, true, false, Option, none, some, List, ◌∷◌, ◌++◌, lookup,
  if◌then◌else◌, Text, text_dec,
}
use golang_frame_practice.Registry.{
  ServerItem, SuRegistry, default_timeout, is_alive, Method, post, serve_http,
}

-- The period of `Heartbeat`: 0 stands for a minute less than the default timeout.
unfoldable pub period : ℕ → ℕ
period duration = if duration == 0 then default_timeout - 60 * 1_000_000_000 else duration

-- `sendHeartBeat`: whether the request arrives at the registry, and what `Do` returns. The status of the
-- answer is not read.
unfoldable pub send_heart_beat :
    Bool → Outcome (Unit {0}) → ℕ → Text → SuRegistry → SuRegistry × Outcome (Unit {0})
send_heart_beat arrived answer now addr s =
    (if arrived then (serve_http (λ b. now) now s post addr).0 else s, answer)

-- The tick behind the one at `d`: the loop of the goroutine ends with the first error.
unfoldable pub next_tick : ℕ → ℕ → Outcome (Unit {0}) → Option ℕ
next_tick duration d (ok _) = some (d + period duration)
next_tick duration d _ = none

-- The time, the registry, when the ticker fires next, while the goroutine runs, and the addresses that a
-- running `aliveServers` has found to be over and not yet deleted.
pub record World : Type 0 where
  pub now : ℕ
  pub registry : SuRegistry
  pub next : Option ℕ
  pub doomed : List Text

-- `Heartbeat`, with its first request at the time `now`; its goroutine has its ticker after `lag`.
unfoldable pub heartbeat :
    Bool → Outcome (Unit {0}) → ℕ → ℕ → Text → ℕ → SuRegistry → List Text → World
heartbeat arrived answer lag duration addr now s doomed = record {
  now = now;
  registry = (send_heart_beat arrived answer now addr s).0;
  next = next_tick duration (now + lag) answer;
  doomed = doomed;
}

-- Time passes, and a heartbeat arrives within `delay` of its tick; a tick has its heartbeat handled;
-- another request comes. Since `aliveServers` holds no lock, other requests can come between its test of
-- an address and the deletion, so both are steps, too.
pub data Step (duration delay : ℕ) (addr : Text) (w : World) : World → Type 0 where
  passes :
      (t : ℕ)
      → w.now ≤ t
      → ((d : ℕ) → w.next ≡ some d → t ≤ d + delay)
      → Step duration delay addr w (record w { now = t })
  ticks :
      (arrived : Bool) (answer : Outcome (Unit {0})) (d : ℕ)
      → w.next ≡ some d
      → d ≤ w.now
      → (answer ≡ ok tt → arrived ≡ true)
      → Step duration delay addr w (record w {
        registry = (send_heart_beat arrived answer w.now addr w.registry).0;
        next = next_tick duration d answer;
      })
  requests :
      (m : Method) (a : Text)
      → Step duration delay addr w
          (record w { registry = (serve_http (λ b. w.now) w.now w.registry m a).0 })
  finds :
      (a : Text) (item : ServerItem)
      → lookup text_dec a w.registry.servers ≡ some item
      → is_alive w.registry.timeout w.now item ≡ false
      → Step duration delay addr w (record w { doomed = a ∷ w.doomed })
  drops :
      (front back : List Text) (a : Text)
      → w.doomed ≡ front ++ a ∷ back
      → Step duration delay addr w (record w {
        registry = record w.registry { servers = delete text_dec a w.registry.servers };
        doomed = front ++ back;
      })

pub data Reach (duration delay : ℕ) (addr : Text) (w : World) : World → Type 0 where
  here : Reach duration delay addr w w
  later :
      {v u : World}
      → Reach duration delay addr w v
      → Step duration delay addr v u
      → Reach duration delay addr w u
