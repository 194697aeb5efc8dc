-- ===== src/Registry/Kept.antt =====
-- SuRPC/registry/registry.go: what other requests leave of a server that sends heartbeats.
use golang_frame_practice.Common.Assoc.{
  delete, lookup-insert_self, lookup-insert_ne, delete-IsMap, lookup-delete_self, lookup-delete_ne,
}
use golang_frame_practice.Common.{
  ℕ, ◌+◌, ◌≤◌, ◌<◌, ◌≡◌, ◌≢◌, ◌⊎◌, inl, inr, refl, sym, ap, ◌∙◌, true, false, some, List, [], ◌∷◌,
  ◌++◌, lookup, Text, text_dec, arith,
}
use golang_frame_practice.Registry.Alive.{lists, alive, lookup-alive_servers}
use golang_frame_practice.Registry.Heartbeat.{period, World}
use golang_frame_practice.Registry.Requests.{IsRegistry, serve_http-IsRegistry, put_server-insert}
use golang_frame_practice.Registry.{
  ServerItem, SuRegistry, put_server, is_alive, alive_servers, Method, get, post, other, serve_http,
}

pub serve_http-post :
    (now : ℕ) (s : SuRegistry) (addr : Text)
    → addr ≢ []
    → (serve_http (λ b. now) now s post addr).0 ≡ put_server now s addr
unfolding serve_http
serve_http-post now s [] n = absurd (n refl)
serve_http-post now s (c ∷ addr) n = refl

-- A list without an address, with another in its middle.
lists-middle :
    (addr a : Text) (front back : List Text)
    → lists addr (front ++ a ∷ back) ≡ false
    → (addr ≢ a) × (lists addr (front ++ back) ≡ false)
unfolding lists
lists-middle addr a [] back h = elim (text_dec addr a) [
  | yes p ↦ absurd (ground (arith, p, h))
  | no p ↦ (p, ground (arith, p, h))
]
lists-middle addr a (b ∷ front) back h = elim (text_dec addr b) [
  | yes p ↦ absurd (ground (arith, p, h))
  | no p ↦
      let (ne, rest) = lists-middle addr a front back (ground (arith, p, h)) in
      (ne, ground (arith, p, rest))
]

delete-IsRegistry :
    (a : Text) (s : SuRegistry)
    → IsRegistry s
    → IsRegistry (record s { servers = delete text_dec a s.servers })
delete-IsRegistry a s h = record {
  distinct = delete-IsMap text_dec a s.servers h.distinct;
  addressed = λ b item e. elim (text_dec b a) [
    | yes p ↦ absurd (ground (arith, p, e, lookup-delete_self text_dec a s.servers))
    | no p ↦ h.addressed b item (sym (lookup-delete_ne text_dec a b s.servers p) ∙ e)
  ];
}

module _ (addr : Text) (duration delay : ℕ) where
  -- The longest time between two heartbeats.
  abbrev pub gap : ℕ
  gap = period duration + (delay + delay)

  -- A timeout that outlasts it, or none.
  abbrev pub Outlasts : SuRegistry → Type 0
  Outlasts s = (s.timeout ≡ 0) ⊎ (gap < s.timeout)

  put_server-start :
      (now : ℕ) (s : SuRegistry) (a : Text) (item : ServerItem)
      → IsRegistry s
      → lookup text_dec addr s.servers ≡ some item
      → item.start ≤ now
      → (new : ServerItem) × (lookup text_dec addr (put_server now s a).servers ≡ some new)
        × (item.start ≤ new.start)
        × (new.start ≤ now)
  put_server-start now s a item h l old = rw (put_server-insert now s a h) (elim (text_dec addr a) [
    | yes p ↦ (
      record { addr = a; start = now },
      ground (arith, p, lookup-insert_self text_dec a (record { addr = a; start = now }) s.servers),
      old,
      omega arith,
    )
    | no p ↦ (item, lookup-insert_ne text_dec a addr _ s.servers p ∙ l, omega arith, old)
  ])

  -- `aliveServers` keeps a server that is alive.
  pub alive-kept :
      (now : ℕ) (s : SuRegistry) (item : ServerItem)
      → IsRegistry s
      → Outlasts s
      → lookup text_dec addr s.servers ≡ some item
      → now ≤ item.start + gap
      → alive s.timeout (λ b. now) addr s.servers ≡ true
  unfolding alive is_alive
  alive-kept now s item h o l t = elim o [
    | inl z ↦ ground (arith, l, z)
    | inr p ↦ ground (arith, l, p, t)
  ]

  -- A request of anybody leaves the server in the map, with a start that is not earlier.
  serve_http-start :
      (now : ℕ) (s : SuRegistry) (m : Method) (a : Text) (item : ServerItem)
      → IsRegistry s
      → Outlasts s
      → lookup text_dec addr s.servers ≡ some item
      → item.start ≤ now
      → now ≤ item.start + gap
      → (new : ServerItem) × (lookup text_dec addr (serve_http (λ b. now) now s m a).0.servers
          ≡ some new)
        × (item.start ≤ new.start)
        × (new.start ≤ now)
  unfolding serve_http
  serve_http-start now s get a item h o l old due = (
    item,
    lookup-alive_servers (λ b. now) s addr h.distinct
        ∙ ground (arith, l, alive-kept now s item h o l due),
    omega arith,
    old,
  )
  serve_http-start now s post [] item h o l old due = (item, l, omega arith, old)
  serve_http-start now s post (c ∷ a) item h o l old due =
      put_server-start now s (c ∷ a) item h l old
  serve_http-start now s (other x) a item h o l old due = (item, l, omega arith, old)

  pub serve_http-timeout :
      (now : ℕ) (s : SuRegistry) (m : Method) (a : Text)
      → (serve_http (λ b. now) now s m a).0.timeout ≡ s.timeout
  unfolding serve_http put_server alive_servers
  serve_http-timeout now s get a = ground arith
  serve_http-timeout now s post [] = refl
  serve_http-timeout now s post (c ∷ a) = ground arith
  serve_http-timeout now s (other x) a = refl

  -- The registry has heard of the server late enough for the next tick, and nobody is about to delete it.
  pub record Kept (timeout : ℕ) (w : World) : Type 0 where
    pub registry : IsRegistry w.registry
    pub same : w.registry.timeout ≡ timeout
    pub heard :
        (d : ℕ)
        → w.next ≡ some d
        → (w.now ≤ d + delay)
          × (item : ServerItem) × (lookup text_dec addr w.registry.servers ≡ some item)
          × (item.start ≤ w.now)
          × (d ≤ item.start + (period duration + delay))
          × (lists addr w.doomed ≡ false)

  pub requests-Kept :
      (timeout : ℕ) (w : World) (m : Method) (a : Text)
      → Outlasts w.registry
      → Kept timeout w
      → Kept timeout (record w { registry = (serve_http (λ b. w.now) w.now w.registry m a).0 })
  requests-Kept timeout w m a o k = record {
    registry = serve_http-IsRegistry (λ b. w.now) w.now w.registry m a k.registry;
    same = serve_http-timeout w.now w.registry m a ∙ k.same;
    heard = λ d e.
        let (t, item, l, old, due, free) = k.heard d e in
        let (new, l', up, old') =
          serve_http-start w.now w.registry m a item k.registry o l old (omega (arith, t, due)) in
        (t, new, l', old', omega (arith, due, up), free);
  }

  -- A running sweep finds others only.
  pub finds-Kept :
      (timeout : ℕ) (w : World) (a : Text) (item : ServerItem)
      → Outlasts w.registry
      → lookup text_dec a w.registry.servers ≡ some item
      → is_alive w.registry.timeout w.now item ≡ false
      → Kept timeout w
      → Kept timeout (record w { doomed = a ∷ w.doomed })
  unfolding lists alive
  finds-Kept timeout w a item o l dead k = record {
    registry = k.registry;
    same = k.same;
    heard = λ d e.
        let (t, mine, l', old, due, free) = k.heard d e in
        let live = alive-kept w.now w.registry mine k.registry o l' (omega (arith, t, due)) in
        (
          t,
          mine,
          l',
          old,
          due,
          elim (text_dec addr a) [
            | yes p ↦ absurd (ground (arith, p, l, dead, live))
            | no p ↦ ground (arith, p, free)
          ],
        );
  }

  -- And deletes others only.
  pub drops-Kept :
      (timeout : ℕ) (w : World) (front back : List Text) (a : Text)
      → w.doomed ≡ front ++ a ∷ back
      → Kept timeout w
      → Kept timeout (record w {
        registry = record w.registry { servers = delete text_dec a w.registry.servers };
        doomed = front ++ back;
      })
  drops-Kept timeout w front back a q k = record {
    registry = delete-IsRegistry a w.registry k.registry;
    same = k.same;
    heard = λ d e.
        let (t, mine, l', old, due, free) = k.heard d e in
        let (ne, rest) = lists-middle addr a front back (ap (lists addr) (sym q) ∙ free) in
        (t, mine, lookup-delete_ne text_dec a addr w.registry.servers ne ∙ l', old, due, rest);
  }
