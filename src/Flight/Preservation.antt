-- ===== src/Flight/Preservation.antt =====
-- CCache/singleflight/singleflight.go: each step of a goroutine keeps the invariant.
use mathlib.Core.Path.{subst}
use golang_frame_practice.Common.Assoc.{
  insert, lookup-insert, lookup-insert_self, lookup-delete_self, lookup-delete_ne,
}
use golang_frame_practice.Common.{
  ℕ, ◌+◌, ◌≡◌, ◌≢◌, refl, sym, ap, ◌∙◌, inl, inr, false, none, some, lookup, Text, text_dec, arith,
  Option-cases,
}
use golang_frame_practice.Flight.{
  Flight, Pc, entering, running, stored, releasing, leaving, waiting, returned, dead, update, enter,
  store, release, remove,
}
use golang_frame_practice.Flight.Growth.{
  leads, IsCall, Fits, Grows, store-Grows, release-Grows, remove-Grows, enter-Grows,
}
use golang_frame_practice.Flight.Moves.{
  Move, calls_do, enters, fn_returns, fn_panics, releases, removes, leaves, wakes, System, pick,
  init, Reach, here, next,
}
use golang_frame_practice.Flight.Invariant.{
  Inv, leads-made, Grows-refl, update_ne, step-Inv, same-Inv,
}

module _ {V : Type 0} (g : Flight V) where
  store-calls : (c : ℕ) (v : V) → (store c v g).calls ≡ g.calls
  unfolding store
  store-calls c v = refl

  pub store-stored :
      (k : Text) (c : ℕ) (v : V) → Fits g (running k c) → Fits (store c v g) (stored k c)
  unfolding store
  store-stored k c v q = (
    record { made = q.0.made; key = ground (arith, q.0.key) },
    q.1,
    v,
    ground arith,
    ground (arith, q.3),
  )

  release-calls : (c : ℕ) → (release c g).calls ≡ g.calls
  unfolding release
  release-calls c = refl

  pub release-releasing :
      (k : Text) (c : ℕ) → Fits g (stored k c) → Fits (release c g) (releasing k c)
  unfolding release
  release-releasing k c q = (
    record { made = q.0.made; key = ground (arith, q.0.key) },
    q.1,
    q.2,
    ground (arith, q.3),
    ground arith,
  )

module _ {V : Type 0} (g : Flight V) (pc : ℕ → Pc V) (inv : Inv g pc) (i : ℕ) where
  -- No goroutine leads a call that has not been made, and none but the leader leads its call.
  alone_new : (j : ℕ) → j ≢ i → leads (pc j) ≢ some g.next
  alone_new j n e = absurd (omega (arith, leads-made g (pc j) g.next (inv.fits j) e))

  alone_led : (c : ℕ) → leads (pc i) ≡ some c → (j : ℕ) → j ≢ i → leads (pc j) ≢ some c
  alone_led c l j n e = n (inv.unique j i c e l)

  unused : (j : Text) → lookup text_dec j g.calls ≢ some g.next
  unused j e = absurd (omega (arith, (inv.listed j g.next e).0.made))

  -- A step that changes no shared state and leads nothing.
  quiet-Inv : (p : Pc V) → Fits g p → leads p ≡ none → leads (pc i) ≡ none → Inv g (update pc i p)
  quiet-Inv p f a b =
      same-Inv g g pc inv i g.next p (Grows-refl g.next g) alone_new f refl (a ∙ sym b) (λ e q. cc)

  -- A step of a leader that leads on.
  lead-Inv :
      (h : Flight V) (c : ℕ) (p : Pc V)
      → leads (pc i) ≡ some c
      → leads p ≡ some c
      → Grows c g h
      → h.calls ≡ g.calls
      → Fits h p
      → Inv h (update pc i p)
  lead-Inv h c p a b r e f =
      same-Inv g h pc inv i c p r (alone_led c a) f e (b ∙ sym a) (λ x q. ground (arith, b, q))

  -- The group with a new call.
  abbrev created : Text → Flight V
  created k = record {
    calls = insert text_dec k g.next g.calls;
    cells = update g.cells g.next (record { key = k; val = none; done = false });
    next = g.next + 1;
  }

  enter_new :
      (k : Text) → lookup text_dec k g.calls ≡ none → enter g k ≡ (created k, running k g.next)
  unfolding enter
  enter_new k e = rw (e, enter) refl

  enter_old : (k : Text) (c : ℕ) → lookup text_dec k g.calls ≡ some c → enter g k ≡ (g, waiting k c)
  unfolding enter
  enter_old k c e = rw (e, enter) refl

  created-listed :
      (k : Text)
      → lookup text_dec k g.calls ≡ none
      → leads (pc i) ≡ none
      → (j : Text) (e : ℕ) → lookup text_dec j (created k).calls ≡ some e
      → IsCall (created k) j e × (a : ℕ) × (leads (update pc i (running k g.next) a) ≡ some e)
  created-listed k none_yet none_led j e l = elim (text_dec j k) [
    | yes p ↦
        let same : g.next ≡ e = ground (arith, p, l, lookup-insert text_dec k j g.next g.calls) in
        (
          record { made = omega (arith, same); key = ground (arith, same, p) },
          i,
          ground (arith, same),
        )
    | no p ↦
        let (q, a, t) =
          inv.listed j e (ground (arith, p, l, lookup-insert text_dec k j g.next g.calls)) in
        (
          record { made = omega (arith, q.made); key = ground (arith, q.made, q.key) },
          a,
          ground (arith, t, none_led),
        )
  ]

  enter-Inv : (k : Text) → leads (pc i) ≡ none → Inv (enter g k).0 (update pc i (enter g k).1)
  enter-Inv k none_led = elim (Option-cases (lookup text_dec k g.calls)) [
    | inr (c, e) ↦
        rw (enter_old k c e) (quiet-Inv (waiting k c) ((inv.listed k c e).0, inl e) refl none_led)
    | inl e ↦
        let r : Grows g.next g (created k) =
          rw (← ap (λ x. x.0) (enter_new k e)) (enter-Grows g k e unused) in
        rw (enter_new k e) (
          step-Inv g (created k) pc inv i g.next (running k g.next) r alone_new
            (
              record { made = omega arith; key = ground arith },
              lookup-insert_self text_dec k g.next g.calls,
              ground arith,
              ground arith,
            )
            (λ x q. ground (arith, q)) (created-listed k e none_led))
  ]

  remove-Inv :
      (k : Text) (c : ℕ) → pc i ≡ releasing k c → Inv (remove k g) (update pc i (leaving k c))
  unfolding remove
  remove-Inv k c e =
      let q : Fits g (releasing k c) = subst (Fits g) e (inv.fits i) in
      step-Inv g (remove k g) pc inv i c (leaving k c) (remove-Grows g k c q.2 q.1 q.3 q.4)
        (alone_led c (ap leads e)) (record { made = q.0.made; key = q.0.key }, q.2, q.3, q.4)
        (λ x l. cc)
        (λ j x l. elim (text_dec j k) [
          | yes p ↦ ground (arith, p, l, lookup-delete_self text_dec k g.calls)
          | no p ↦
              let (r, a, t) = inv.listed j x (sym (lookup-delete_ne text_dec k j g.calls p) ∙ l) in
              let apart : i ≢ a = λ s. p (ground (arith, s, t, ap leads e, r.key, q.0.key)) in
              (
                record { made = r.made; key = r.key },
                a,
                rw (update_ne pc i (leaving k c) a apart) t,
              )
        ])

  -- Every step of a goroutine keeps the invariant.
  Move-Inv :
      (p : Pc V) (h : Flight V) (p' : Pc V) → pc i ≡ p → Move g p h p' → Inv h (update pc i p')
  Move-Inv p h p' e (calls_do k) = quiet-Inv (entering k) tt refl (ap leads e)
  Move-Inv p h p' e (enters k) = enter-Inv k (ap leads e)
  Move-Inv p h p' e (fn_returns k c v) =
      let q : Fits g (running k c) = subst (Fits g) e (inv.fits i) in
      lead-Inv (store c v g) c (stored k c) (ap leads e) refl (store-Grows g c v q.2)
        (store-calls g c v) (store-stored g k c v q)
  Move-Inv p h p' e (fn_panics k c) =
      let q : Fits g (running k c) = subst (Fits g) e (inv.fits i) in
      lead-Inv g c (dead k c) (ap leads e) refl (Grows-refl c g) refl (q.0, q.1, q.3)
  Move-Inv p h p' e (releases k c) =
      let q : Fits g (stored k c) = subst (Fits g) e (inv.fits i) in
      lead-Inv (release c g) c (releasing k c) (ap leads e) refl (release-Grows g c)
        (release-calls g c) (release-releasing g k c q)
  Move-Inv p h p' e (removes k c) = remove-Inv k c e
  Move-Inv p h p' e (leaves k c v w) =
      let q : Fits g (leaving k c) = subst (Fits g) e (inv.fits i) in
      quiet-Inv (returned k c v) (q.0, w, q.3) refl (ap leads e)
  Move-Inv p h p' e (wakes k c v d w) =
      let q : Fits g (waiting k c) = subst (Fits g) e (inv.fits i) in
      quiet-Inv (returned k c v) (q.0, w, d) refl (ap leads e)

-- Every reachable state keeps the invariant.
pub Reach-Inv : {V : Type 0} {s : System V} → Reach init s → Inv s.group s.pc
unfolding lookup
Reach-Inv here = record { fits = λ i. tt; unique = λ i j c a b. cc; listed = λ k c l. cc }
Reach-Inv (next {t} r (pick i {g} {p} m)) =
    Move-Inv t.group t.pc (Reach-Inv r) i (t.pc i) g p refl m
