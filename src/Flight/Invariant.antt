-- ===== src/Flight/Invariant.antt =====
-- CCache/singleflight/singleflight.go: what holds in every state that the goroutines reach.
use golang_frame_practice.Common.{
  ℕ, ◌<◌, ◌≡◌, ◌≢◌, refl, sym, ap, ◌∙◌, inl, some, lookup, ℕ_discrete, Text, text_dec, arith,
}
use golang_frame_practice.Flight.{
  Flight, Pc, idle, entering, running, stored, releasing, leaving, waiting, returned, dead, update,
}
use golang_frame_practice.Flight.Growth.{leads, IsCall, Fits, Grows, Fits-Grows}

-- Every goroutine fits the group, each call has one goroutine that is responsible for it, and the
-- map has the calls that someone is responsible for.
pub record Inv {V : Type 0} (g : Flight V) (pc : ℕ → Pc V) : Type 0 where
  pub fits : (i : ℕ) → Fits g (pc i)
  pub unique : (i j c : ℕ) → leads (pc i) ≡ some c → leads (pc j) ≡ some c → i ≡ j
  pub listed :
      (k : Text) (c : ℕ)
      → lookup text_dec k g.calls ≡ some c
      → IsCall g k c × (i : ℕ) × (leads (pc i) ≡ some c)

module _ {V : Type 0} where
  pub leads-made : (g : Flight V) (p : Pc V) (c : ℕ) → Fits g p → leads p ≡ some c → c < g.next
  leads-made g idle c q e = cc
  leads-made g (entering k) c q e = cc
  leads-made g (running k d) c q e = ground (arith, e, q.0.made)
  leads-made g (stored k d) c q e = ground (arith, e, q.0.made)
  leads-made g (releasing k d) c q e = ground (arith, e, q.0.made)
  leads-made g (leaving k d) c q e = cc
  leads-made g (waiting k d) c q e = cc
  leads-made g (returned k d v) c q e = cc
  leads-made g (dead k d) c q e = ground (arith, e, q.0.made)

  -- The goroutine that leads a call holds its key in the map.
  pub leads-held :
      (g : Flight V) (p : Pc V) (c : ℕ)
      → Fits g p
      → leads p ≡ some c
      → lookup text_dec (g.cells c).key g.calls ≡ some c
  leads-held g idle c q e = cc
  leads-held g (entering k) c q e = cc
  leads-held g (running k d) c q e = ground (arith, e, q.0.key, q.1)
  leads-held g (stored k d) c q e = ground (arith, e, q.0.key, q.1)
  leads-held g (releasing k d) c q e = ground (arith, e, q.0.key, q.1)
  leads-held g (leaving k d) c q e = cc
  leads-held g (waiting k d) c q e = cc
  leads-held g (returned k d v) c q e = cc
  leads-held g (dead k d) c q e = ground (arith, e, q.0.key, q.1)

  pub Grows-refl : (c : ℕ) (g : Flight V) → Grows c g g
  Grows-refl c g = record {
    made = omega arith;
    key = λ e b. refl;
    val = λ e v b q. q;
    done = λ e b q. q;
    same = λ e n b. refl;
    calls = λ k e n l. l;
    gone = λ k l. inl l;
  }

pub update_ne {ℓ} : {A : Type ℓ} (f : ℕ → A) (i : ℕ) (a : A) (j : ℕ) → i ≢ j → update f i a j ≡ f j
update_ne f i a j n = ground (arith, n)

pub update_self {ℓ} : {A : Type ℓ} (f : ℕ → A) (i : ℕ) (a : A) → update f i a i ≡ a
update_self f i a = ground arith

module _ {V : Type 0} (g h : Flight V) (pc : ℕ → Pc V) (inv : Inv g pc) (i c : ℕ) (p : Pc V) where
  -- A step of the goroutine `i` that is about the call `c`, which no other goroutine leads.
  pub step-Inv :
      Grows c g h
      → ((j : ℕ) → j ≢ i → leads (pc j) ≢ some c)
      → Fits h p
      → ((e : ℕ) → leads p ≡ some e → e ≡ c)
      → ((k : Text) (e : ℕ)
          → lookup text_dec k h.calls ≡ some e
          → IsCall h k e × (j : ℕ) × (leads (update pc i p j) ≡ some e))
      → Inv h (update pc i p)
  step-Inv r alone f own l = record {
    fits = λ j. elim (ℕ_discrete i j) [
      | yes e ↦ ground (arith, e, f)
      | no e ↦
          rw (update_ne pc i p j e)
            (Fits-Grows c g h r (pc j) (alone j (λ q. e (sym q))) (inv.fits j))
    ];
    unique = λ a b e x y. ground (arith, x, y, own e, alone a, alone b, inv.unique a b e);
    listed = l;
  }

  -- The same where neither the map nor what is led changes.
  pub same-Inv :
      Grows c g h
      → ((j : ℕ) → j ≢ i → leads (pc j) ≢ some c)
      → Fits h p
      → h.calls ≡ g.calls
      → leads p ≡ leads (pc i)
      → ((e : ℕ) → leads p ≡ some e → e ≡ c)
      → Inv h (update pc i p)
  same-Inv r alone f calls led own = step-Inv r alone f own λ k e l.
      let (q, j, t) = inv.listed k e (ap (lookup text_dec k) (sym calls) ∙ l) in
      (
        record { made = omega (arith, q.made, r.made); key = r.key e q.made ∙ q.key },
        j,
        ground (arith, t, led),
      )
