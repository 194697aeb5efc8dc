-- ===== src/Flight/Growth.antt =====
-- CCache/singleflight/singleflight.go: a step of one goroutine leaves what the others know true.
use golang_frame_practice.Common.Assoc.{lookup-insert, lookup-delete_ne}
use golang_frame_practice.Common.{
  ℕ, ◌≤◌, ◌<◌, ◌≡◌, ◌≢◌, refl, ap, ◌∙◌, ◌⊎◌, inl, inr, true, false, Option, none, some, lookup,
  ℕ_discrete, Text, text_dec, arith,
}
use golang_frame_practice.Flight.{
  Cell, Flight, Pc, idle, entering, running, stored, releasing, leaving, waiting, returned, dead,
  enter, store, release, remove,
}

-- The call that a goroutine is responsible for, until it has deleted the key.
abbrev pub leads : {V : Type 0} → Pc V → Option ℕ
leads (running k c) = some c
leads (stored k c) = some c
leads (releasing k c) = some c
leads (dead k c) = some c
leads _ = none

-- A call that has been made, for the key.
pub record IsCall {V : Type 0} (g : Flight V) (k : Text) (c : ℕ) : Type 0 where
  pub made : c < g.next
  pub key : (g.cells c).key ≡ k

-- A call that has ended with a value.
pub record IsOver {V : Type 0} (g : Flight V) (c : ℕ) : Type 0 where
  pub value : V
  pub val : (g.cells c).val ≡ some value
  pub done : (g.cells c).done ≡ true

-- What the locals of a goroutine say about the group.
abbrev pub Fits : {V : Type 0} → Flight V → Pc V → Type 0
Fits g idle = Unit {0}
Fits g (entering k) = Unit {0}
Fits g (running k c) =
    IsCall g k c
    × (lookup text_dec k g.calls ≡ some c)
    × ((g.cells c).val ≡ none)
    × ((g.cells c).done ≡ false)
Fits {V} g (stored k c) =
    IsCall g k c
    × (lookup text_dec k g.calls ≡ some c)
    × (v : V) × ((g.cells c).val ≡ some v)
    × ((g.cells c).done ≡ false)
Fits {V} g (releasing k c) =
    IsCall g k c
    × (lookup text_dec k g.calls ≡ some c)
    × (v : V) × ((g.cells c).val ≡ some v)
    × ((g.cells c).done ≡ true)
Fits {V} g (leaving k c) =
    IsCall g k c × (v : V) × ((g.cells c).val ≡ some v) × ((g.cells c).done ≡ true)
Fits g (waiting k c) = IsCall g k c × ((lookup text_dec k g.calls ≡ some c) ⊎ IsOver g c)
Fits g (returned k c v) = IsCall g k c × ((g.cells c).val ≡ some v) × ((g.cells c).done ≡ true)
Fits g (dead k c) = IsCall g k c × (lookup text_dec k g.calls ≡ some c) × ((g.cells c).done ≡ false)

-- A step that is about the call `c` at most, and takes nothing back.
pub record Grows {V : Type 0} (c : ℕ) (g h : Flight V) : Type 0 where
  pub made : g.next ≤ h.next
  pub key : (e : ℕ) → e < g.next → (h.cells e).key ≡ (g.cells e).key
  pub val : (e : ℕ) (v : V) → e < g.next → (g.cells e).val ≡ some v → (h.cells e).val ≡ some v
  pub done : (e : ℕ) → e < g.next → (g.cells e).done ≡ true → (h.cells e).done ≡ true
  pub same : (e : ℕ) → e ≢ c → e < g.next → h.cells e ≡ g.cells e
  pub calls :
      (k : Text) (e : ℕ)
      → e ≢ c
      → lookup text_dec k g.calls ≡ some e
      → lookup text_dec k h.calls ≡ some e
  pub gone :
      (k : Text)
      → lookup text_dec k g.calls ≡ some c
      → (lookup text_dec k h.calls ≡ some c) ⊎ IsOver h c

module _ {V : Type 0} (c : ℕ) (g h : Flight V) (r : Grows c g h) where
  IsCall-Grows : (k : Text) (e : ℕ) → IsCall g k e → IsCall h k e
  IsCall-Grows k e q = record { made = omega (arith, q.made, r.made); key = r.key e q.made ∙ q.key }

  other : {a b : ℕ} → some a ≢ some b → a ≢ b
  other n e = n (ap some e)

  -- What the other goroutines know stays true.
  pub Fits-Grows : (p : Pc V) → leads p ≢ some c → Fits g p → Fits h p
  Fits-Grows idle n q = tt
  Fits-Grows (entering k) n q = tt
  Fits-Grows (running k e) n (q, l, v, d) = (
    IsCall-Grows k e q,
    r.calls k e (other n) l,
    ap (λ (x : Cell V). x.val) (r.same e (other n) q.made) ∙ v,
    ap (λ (x : Cell V). x.done) (r.same e (other n) q.made) ∙ d,
  )
  Fits-Grows (stored k e) n (q, l, v, w, d) = (
    IsCall-Grows k e q,
    r.calls k e (other n) l,
    v,
    r.val e v q.made w,
    ap (λ (x : Cell V). x.done) (r.same e (other n) q.made) ∙ d,
  )
  Fits-Grows (releasing k e) n (q, l, v, w, d) =
      (IsCall-Grows k e q, r.calls k e (other n) l, v, r.val e v q.made w, r.done e q.made d)
  Fits-Grows (leaving k e) n (q, v, w, d) =
      (IsCall-Grows k e q, v, r.val e v q.made w, r.done e q.made d)
  Fits-Grows (waiting k e) n (q, inr d) = (
    IsCall-Grows k e q,
    inr (record {
      value = d.value;
      val = r.val e d.value q.made d.val;
      done = r.done e q.made d.done;
    }),
  )
  Fits-Grows (waiting k e) n (q, inl l) = (
    IsCall-Grows k e q,
    elim (ℕ_discrete e c) [
      | yes p ↦ rw p (r.gone k (l ∙ ap some p))
      | no p ↦ inl (r.calls k e p l)
    ],
  )
  Fits-Grows (returned k e v) n (q, w, d) =
      (IsCall-Grows k e q, r.val e v q.made w, r.done e q.made d)
  Fits-Grows (dead k e) n (q, l, d) = (
    IsCall-Grows k e q,
    r.calls k e (other n) l,
    ap (λ (x : Cell V). x.done) (r.same e (other n) q.made) ∙ d,
  )

module _ {V : Type 0} (g : Flight V) where
  pub store-Grows : (c : ℕ) (v : V) → (g.cells c).val ≡ none → Grows c g (store c v g)
  unfolding store
  store-Grows c v none_yet = record {
    made = omega arith;
    key = λ e b. ground arith;
    val = λ e w b q. ground arith;
    done = λ e b q. ground arith;
    same = λ e n b. ground arith;
    calls = λ k e n l. l;
    gone = λ k l. inl l;
  }

  pub release-Grows : (c : ℕ) → Grows c g (release c g)
  unfolding release
  release-Grows c = record {
    made = omega arith;
    key = λ e b. ground arith;
    val = λ e w b q. ground arith;
    done = λ e b q. ground arith;
    same = λ e n b. ground arith;
    calls = λ k e n l. l;
    gone = λ k l. inl l;
  }

  pub remove-Grows :
      (k : Text) (c : ℕ) (v : V)
      → lookup text_dec k g.calls ≡ some c
      → (g.cells c).val ≡ some v
      → (g.cells c).done ≡ true
      → Grows c g (remove k g)
  unfolding remove
  remove-Grows k c v held w d = record {
    made = omega arith;
    key = λ e b. refl;
    val = λ e w b q. q;
    done = λ e b q. q;
    same = λ e n b. refl;
    calls = λ j e n l. elim (text_dec j k) [
      | yes p ↦ absurd (n (ground (arith, p, l, held)))
      | no p ↦ lookup-delete_ne text_dec k j g.calls p ∙ l
    ];
    gone = λ j l. inr (record { value = v; val = w; done = d });
  }

  -- A call is made for a key that has none.
  pub enter-Grows :
      (k : Text)
      → lookup text_dec k g.calls ≡ none
      → ((j : Text) → lookup text_dec j g.calls ≢ some g.next)
      → Grows g.next g (enter g k).0
  unfolding enter
  enter-Grows k none_yet unused =
      rw (none_yet, enter)
        (record {
          made = omega arith;
          key = λ e b. ground arith;
          val = λ e w b q. ground arith;
          done = λ e b q. ground arith;
          same = λ e n b. ground arith;
          calls = λ j e n l. elim (text_dec j k) [
            | yes p ↦ ground (arith, p, l, none_yet)
            | no p ↦ ground (arith, p, l, lookup-insert text_dec k j g.next g.calls)
          ];
          gone = λ j l. absurd (unused j l);
        })
