-- ===== src/XClient/Keeps.antt =====
-- SuRPC/xclient/xclient.go: the two halves of `dial`.
use golang_frame_practice.Client.{Client, is_available}
use golang_frame_practice.Client.Dial.{Dialled, x_dial}
use golang_frame_practice.Common.Assoc.{
  insert, insert-IsMap, lookup-insert, lookup-insert_self, lookup-insert_ne, lookup-delete_self,
  lookup-delete_ne,
}
use golang_frame_practice.Common.Outcome.{Outcome, ok, err, panics, hangs, exits, ◌>>=◌}
use golang_frame_practice.Common.{
  ℕ, ◌+◌, ◌≡◌, ◌≢◌, refl, sym, ap, ◌∙◌, ◌⊎◌, inl, inr, true, false, none, some, lookup, ℕ_discrete,
  Text, text_dec, arith, Option-cases, Bool-cases,
}
use golang_frame_practice.Flight.{update}
use golang_frame_practice.XClient.{XClient, discard, kept, keep}
use golang_frame_practice.XClient.Cache.{IsValid, discard-IsValid}

module _ {A B : Type 0} where
  -- A new entry of an address that has none.
  insert-IsValid :
      (addr : Text) (d : Dialled) (client : Client A B) (x : XClient A B)
      → x_dial addr ≡ ok d
      → lookup text_dec addr x.clients ≡ none
      → IsValid x
      → IsValid (record x {
        clients = insert text_dec addr x.next x.clients;
        heap = update x.heap x.next client;
        next = x.next + 1;
      })
  insert-IsValid addr d client x e l v = record {
    distinct = insert-IsMap text_dec addr x.next x.clients v.distinct;
    made = λ k c h. ground (arith, h, lookup-insert text_dec addr k x.next x.clients, v.made k c);
    own = λ j k c a b. ground (
      arith,
      a,
      b,
      lookup-insert text_dec addr j x.next x.clients,
      lookup-insert text_dec addr k x.next x.clients,
      v.made j c,
      v.made k c,
      v.own j k c,
    );
    parsed = λ k c h. elim (text_dec k addr) [
      | yes p ↦ (d, ap x_dial p ∙ e)
      | no p ↦ v.parsed k c (sym (lookup-insert_ne text_dec addr k x.next x.clients p) ∙ h)
    ];
    shut = λ c h. elim (ℕ_discrete x.next c) [
      | yes p ↦ inl (addr, lookup-insert_self text_dec addr x.next x.clients ∙ ap some p)
      | no p ↦ elim (v.shut c (omega (arith, h, p))) [
        | inr off ↦ inr (ground (arith, p, off))
        | inl (k, q) ↦ inl (
          k,
          lookup-insert_ne text_dec addr k x.next x.clients (λ s. ground (arith, s, q, l)) ∙ q,
        )
      ]
    ];
  }

module _ {A B : Type 0} (closed : ℕ → Outcome (Unit {0})) where
  -- The three branches of the first half of `dial`.
  kept-none :
      (addr : Text) (x : XClient A B)
      → lookup text_dec addr x.clients ≡ none
      → kept closed addr x ≡ (x, none)
  unfolding kept
  kept-none addr x e = ground (arith, e)

  pub kept_open :
      (addr : Text) (c : ℕ) (x : XClient A B)
      → lookup text_dec addr x.clients ≡ some c
      → is_available (x.heap c) ≡ true
      → kept closed addr x ≡ (x, some c)
  unfolding kept
  kept_open addr c x e h = ground (arith, e, h)

  kept_shut :
      (addr : Text) (c : ℕ) (x : XClient A B)
      → lookup text_dec addr x.clients ≡ some c
      → is_available (x.heap c) ≡ false
      → kept closed addr x ≡ (discard closed addr c x, none)
  unfolding kept
  kept_shut addr c x e h = ground (arith, e, h)

  discard_self :
      (addr : Text) (c : ℕ) (x : XClient A B)
      → lookup text_dec addr (discard closed addr c x).clients ≡ none
  unfolding discard
  discard_self addr c x = lookup-delete_self text_dec addr x.clients

  -- What the first half of `dial` leaves: a client that can be used, or no entry of the address.
  pub kept_cases :
      (addr : Text) (x : XClient A B)
      → IsValid x
      → ((c : ℕ) × (kept closed addr x ≡ (x, some c))
          × (lookup text_dec addr x.clients ≡ some c)
          × (is_available (x.heap c) ≡ true))
        ⊎ ((y : XClient A B) × (kept closed addr x ≡ (y, none))
            × IsValid y
            × (lookup text_dec addr y.clients ≡ none))
  kept_cases addr x v = elim (Option-cases (lookup text_dec addr x.clients)) [
    | inl e ↦ inr (x, kept-none addr x e, v, e)
    | inr (c, e) ↦ elim (Bool-cases (is_available (x.heap c))) [
      | inl h ↦ inl (c, kept_open addr c x e h, e, h)
      | inr h ↦ inr (
        discard closed addr c x,
        kept_shut addr c x e h,
        discard-IsValid closed addr c x e v,
        discard_self addr c x,
      )
    ]
  ]

  discard_other :
      (addr : Text) (c : ℕ) (x : XClient A B) (k : Text)
      → k ≢ addr
      → lookup text_dec k (discard closed addr c x).clients ≡ lookup text_dec k x.clients
  unfolding discard
  discard_other addr c x k n = lookup-delete_ne text_dec addr k x.clients n

  pub kept_other :
      (addr : Text) (x : XClient A B) (k : Text)
      → k ≢ addr
      → lookup text_dec k (kept closed addr x).0.clients ≡ lookup text_dec k x.clients
  unfolding kept
  kept_other addr x k n = elim (Option-cases (lookup text_dec addr x.clients)) [
    | inl e ↦ ground (arith, e)
    | inr (c, e) ↦ ground (arith, e, discard_other addr c x k n)
  ]

  -- What an address has in the cache, by the result of `dial`: a client that can be used, or nothing.
  abbrev pub Obtained : Text → XClient A B → Outcome ℕ → Type 0
  Obtained addr y (ok c) =
      (lookup text_dec addr y.clients ≡ some c) × (is_available (y.heap c) ≡ true)
  Obtained addr y _ = lookup text_dec addr y.clients ≡ none

  pub keep-Obtained :
      (addr : Text) (r : Outcome (Client A B)) (x : XClient A B)
      → ((client : Client A B) → r ≡ ok client → is_available client ≡ true)
      → lookup text_dec addr x.clients ≡ none
      → Obtained addr (keep closed addr r x).0 (keep closed addr r x).1
  unfolding keep
  keep-Obtained addr (ok client) x h e =
      (lookup-insert_self text_dec addr x.next x.clients, ground (arith, h client refl))
  keep-Obtained addr (err m) x h e = e
  keep-Obtained addr (panics m) x h e = e
  keep-Obtained addr hangs x h e = e
  keep-Obtained addr (exits msg) x h e = e

  pub keep-IsValid :
      (addr : Text) (r : Outcome (Client A B)) (x : XClient A B)
      → ((client : Client A B) → r ≡ ok client → (d : Dialled) × (x_dial addr ≡ ok d))
      → lookup text_dec addr x.clients ≡ none
      → IsValid x
      → IsValid (keep closed addr r x).0
  unfolding keep
  keep-IsValid addr (ok client) x h e v =
      let (d, q) = h client refl in insert-IsValid addr d client x q e v
  keep-IsValid addr (err m) x h e v = v
  keep-IsValid addr (panics m) x h e v = v
  keep-IsValid addr hangs x h e v = v
  keep-IsValid addr (exits msg) x h e v = v

  pub keep_other :
      (addr : Text) (r : Outcome (Client A B)) (x : XClient A B) (k : Text)
      → k ≢ addr
      → lookup text_dec k (keep closed addr r x).0.clients ≡ lookup text_dec k x.clients
  unfolding keep
  keep_other addr (ok client) x k n = lookup-insert_ne text_dec addr k x.next x.clients n
  keep_other addr (err m) x k n = refl
  keep_other addr (panics m) x k n = refl
  keep_other addr hangs x k n = refl
  keep_other addr (exits msg) x k n = refl

  pub bind_ok :
      {P : Dialled → Outcome (Client A B)} (o : Outcome Dialled) (client : Client A B)
      → (o >>= P) ≡ ok client
      → (d : Dialled) × (o ≡ ok d) × (P d ≡ ok client)
  bind_ok (ok d) client e = (d, refl, e)
  bind_ok (err m) client e = cc
  bind_ok (panics m) client e = cc
  bind_ok hangs client e = cc
  bind_ok (exits msg) client e = cc
