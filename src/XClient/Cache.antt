-- ===== src/XClient/Cache.antt =====
-- SuRPC/xclient/xclient.go: the clients that are kept, and those that are closed.
use mathlib.Core.Path.{subst}
use golang_frame_practice.Client.{is_available}
use golang_frame_practice.Client.Dial.{Dialled, x_dial}
use golang_frame_practice.Client.Unavailable.{close-unavailable}
use golang_frame_practice.Common.Assoc.{
  IsMap, delete, delete-IsMap, delete-none, lookup-delete_self, lookup-delete_ne,
}
use golang_frame_practice.Common.Outcome.{Outcome, ok}
use golang_frame_practice.Common.{
  ℕ, ◌<◌, ◌≡◌, ◌≢◌, refl, sym, ap, ◌∙◌, ◌⊎◌, inl, inr, false, none, some, List, [], ◌∷◌, lookup,
  ℕ_discrete, Text, text_dec, arith,
}
use golang_frame_practice.XClient.{XClient, discard, discard_all, close_all}

-- The cache is a map, no two addresses share a client, each address can be parsed, and a client that
-- is not in the cache cannot be used any more.
pub record IsValid {A B : Type 0} (x : XClient A B) : Type 0 where
  pub distinct : IsMap text_dec x.clients
  pub made : (k : Text) (c : ℕ) → lookup text_dec k x.clients ≡ some c → c < x.next
  pub own :
      (j k : Text) (c : ℕ)
      → lookup text_dec j x.clients ≡ some c
      → lookup text_dec k x.clients ≡ some c
      → j ≡ k
  pub parsed :
      (k : Text) (c : ℕ) → lookup text_dec k x.clients ≡ some c → (d : Dialled) × (x_dial k ≡ ok d)
  pub shut :
      (c : ℕ)
      → c < x.next
      → ((k : Text) × (lookup text_dec k x.clients ≡ some c)) ⊎ (is_available (x.heap c) ≡ false)

lookup_head :
    (key : Text) (c : ℕ) (entries m : List (Text × ℕ))
    → m ≡ (key, c) ∷ entries
    → lookup text_dec key m ≡ some c
unfolding lookup
lookup_head key c entries m e = ap (lookup text_dec key) e ∙ ground arith

module _ {A B : Type 0} (closed : ℕ → Outcome (Unit {0})) where
  -- What stays when the entry of a key is deleted.
  lookup-discard :
      (key : Text) (c : ℕ) (x : XClient A B) (k : Text) (e : ℕ)
      → lookup text_dec k (discard closed key c x).clients ≡ some e
      → (k ≢ key) × (lookup text_dec k x.clients ≡ some e)
  unfolding discard
  lookup-discard key c x k e l = elim (text_dec k key) [
    | yes p ↦ ground (arith, p, l, lookup-delete_self text_dec key x.clients)
    | no p ↦ (p, sym (lookup-delete_ne text_dec key k x.clients p) ∙ l)
  ]

  pub discard-IsValid :
      (key : Text) (c : ℕ) (x : XClient A B)
      → lookup text_dec key x.clients ≡ some c
      → IsValid x
      → IsValid (discard closed key c x)
  unfolding discard
  discard-IsValid key c x l v = record {
    distinct = delete-IsMap text_dec key x.clients v.distinct;
    made = λ k e h. v.made k e (lookup-discard key c x k e h).1;
    own =
        λ j k e a b. v.own j k e (lookup-discard key c x j e a).1 (lookup-discard key c x k e b).1;
    parsed = λ k e h. v.parsed k e (lookup-discard key c x k e h).1;
    shut = λ e h. elim (ℕ_discrete c e) [
      | yes p ↦ inr (ground (arith, p, close-unavailable (closed c) (x.heap c)))
      | no p ↦ elim (v.shut e h) [
        | inr off ↦ inr (ground (arith, p, off))
        | inl (k, q) ↦
            inl
              (k, lookup-delete_ne text_dec key k x.clients (λ s. p (ground (arith, s, q, l))) ∙ q)
      ]
    ];
  }

  discard-clients :
      (key : Text) (c : ℕ) (x : XClient A B) (entries : List (Text × ℕ))
      → x.clients ≡ (key, c) ∷ entries
      → lookup text_dec key entries ≡ none
      → (discard closed key c x).clients ≡ entries
  unfolding discard delete
  discard-clients key c x entries e h =
      ap (delete text_dec key) e ∙ ground (arith, delete-none text_dec key entries h)

  pub discard_all-IsValid :
      (entries : List (Text × ℕ)) (x : XClient A B)
      → x.clients ≡ entries
      → IsValid x
      → IsValid (discard_all closed entries x) × ((discard_all closed entries x).clients ≡ [])
  unfolding discard_all
  discard_all-IsValid [] x e v = (v, e)
  discard_all-IsValid ((key, c) ∷ entries) x e v =
      let d : IsMap text_dec ((key, c) ∷ entries) = subst (IsMap text_dec) e v.distinct in
      discard_all-IsValid entries (discard closed key c x) (discard-clients key c x entries e d.0)
        (discard-IsValid key c x (lookup_head key c entries x.clients e) v)

  -- `Close` leaves no client in the cache, and none that it had can be used.
  pub close_all-IsValid :
      (x : XClient A B)
      → IsValid x
      → IsValid (close_all closed x) × ((close_all closed x).clients ≡ [])
  unfolding close_all
  close_all-IsValid x v = discard_all-IsValid x.clients x refl v
