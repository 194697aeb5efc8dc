-- ===== src/XClient/Dials.antt =====
-- SuRPC/xclient/xclient.go: the client that `dial` gives for an address.
use golang_frame_practice.Client.{Client, is_available}
use golang_frame_practice.Client.Dial.{Options, Dialled, x_dial}
use golang_frame_practice.Common.Outcome.{Outcome, ok, err, ◌>>=◌}
use golang_frame_practice.Common.{
  ℕ, ◌≡◌, ◌≢◌, refl, ◌∙◌, inl, inr, true, Option, none, some, lookup, Text, text_dec, arith,
}
use golang_frame_practice.XClient.{XClient, kept, keep, dial}
use golang_frame_practice.XClient.Cache.{IsValid}
use golang_frame_practice.XClient.Keeps.{
  kept_open, kept_cases, kept_other, Obtained, keep-Obtained, keep-IsValid, keep_other, bind_ok,
}

module _ {A B : Type 0} (closed : ℕ → Outcome (Unit {0}))
    (connect : Option Options → Dialled → Outcome (Client A B)) where
  pub dial-kept :
      (addr : Text) (x : XClient A B) (c : ℕ)
      → kept closed addr x ≡ (x, some c)
      → dial closed connect addr x ≡ (x, ok c)
  unfolding dial
  dial-kept addr x c e = ground (arith, e)

  pub dial-keep :
      (addr : Text) (x y : XClient A B)
      → kept closed addr x ≡ (y, none)
      → dial closed connect addr x ≡ keep closed addr (x_dial addr >>= connect y.option) y
  unfolding dial
  dial-keep addr x y e = ground (arith, e)

  pub dial-IsValid :
      (addr : Text) (x : XClient A B) → IsValid x → IsValid (dial closed connect addr x).0
  dial-IsValid addr x v = elim (kept_cases closed addr x v) [
    | inl (c, e, q, o) ↦ rw (dial-kept addr x c e) v
    | inr (y, e, w, q) ↦ rw (dial-keep addr x y e) (
        keep-IsValid closed addr (x_dial addr >>= connect y.option) y
          (λ client h. let (d, p, r) = bind_ok closed (x_dial addr) client h in (d, p)) q w)
  ]

  dial_other :
      (addr : Text) (x : XClient A B) (k : Text)
      → IsValid x
      → k ≢ addr
      → lookup text_dec k (dial closed connect addr x).0.clients ≡ lookup text_dec k x.clients
  dial_other addr x k v n = elim (kept_cases closed addr x v) [
    | inl (c, e, q, o) ↦ rw (dial-kept addr x c e) refl
    | inr (y, e, w, q) ↦ rw (dial-keep addr x y e) (
        keep_other closed addr (x_dial addr >>= connect y.option) y k n
        ∙ ground (arith, e, kept_other closed addr x k n))
  ]

  -- If every client that the network gives can be used: from a valid XClient, after `dial` the
  -- address has in the cache the client that `dial` returns, which can be used, or, when `dial` returns
  -- none, nothing; the entries of the other addresses are as before; and a client of the address
  -- that could be used is returned, with nothing changed.
  pub dial-Obtained :
      (addr : Text) (x : XClient A B)
      → ((o : Option Options) (d : Dialled) (client : Client A B)
          → connect o d ≡ ok client
          → is_available client ≡ true)
      → IsValid x
      → Obtained closed addr (dial closed connect addr x).0 (dial closed connect addr x).1
        × ((k : Text)
            → k ≢ addr
            → lookup text_dec k (dial closed connect addr x).0.clients
              ≡ lookup text_dec k x.clients)
        × ((c : ℕ)
            → lookup text_dec addr x.clients ≡ some c
            → is_available (x.heap c) ≡ true
            → dial closed connect addr x ≡ (x, ok c))
  dial-Obtained addr x opens v = (
    elim (kept_cases closed addr x v) [
      | inl (c, e, q, o) ↦ rw (dial-kept addr x c e) (q, o)
      | inr (y, e, w, q) ↦ rw (dial-keep addr x y e) (
          keep-Obtained closed addr (x_dial addr >>= connect y.option) y
            (λ client h.
              let (d, p, r) = bind_ok closed (x_dial addr) client h in opens y.option d client r)
            q)
    ],
    λ k n. dial_other addr x k v n,
    λ c l h. dial-kept addr x c (kept_open closed addr c x l h),
  )

  -- An address that cannot be parsed is not in a valid cache, so the error comes back.
  pub dial-err :
      (addr e : Text) (x : XClient A B)
      → x_dial addr ≡ err e
      → IsValid x
      → (dial closed connect addr x).1 ≡ err e
  unfolding keep
  dial-err addr e x h v = elim (kept_cases closed addr x v) [
    | inl (c, q, l, o) ↦ let (d, p) = v.parsed addr c l in absurd (ground (arith, h, p))
    | inr (y, q, w, l) ↦ rw (dial-keep addr x y q, h) refl
  ]
