-- ===== src/Client/Receive.antt =====
-- SuRPC/client.go: what `receive` does to the counts of pending and completed calls.
use golang_frame_practice.Common.Assoc.{delete, delete-IsMap, lookup-delete_self, lookup-delete_ne}
use golang_frame_practice.Common.{
  ℕ, ◌+◌, ◌≡◌, refl, ap, true, false, Option, none, some, List, [], ◌∷◌, lookup, ite, ℕ_discrete,
  Text, arith, inl, inr, Option-cases,
}
use golang_frame_practice.Client.{
  Call, Header, Client, Body, decoded, broken, Incoming, no_header, message, remove_call, finish,
  finish_all, terminate_calls, settle, receive_round, receive,
}
use golang_frame_practice.Client.Pending.{
  times, waiting, times-append, waiting-delete-none, waiting-delete, Accounts,
}

module _ {A B : Type 0} where
  finish_all-same :
      (i : ℕ) (e : Text) (m : List (ℕ × Call A B)) (c : Client A B)
      → ((finish_all e m c).pending ≡ c.pending)
        × ((finish_all e m c).seq ≡ c.seq)
        × ((finish_all e m c).shutdown ≡ c.shutdown)
        × (times i (finish_all e m c).finished ≡ times i c.finished + waiting i m)
  unfolding finish_all finish times waiting
  finish_all-same i e [] c = (refl, refl, refl, omega arith)
  finish_all-same i e ((_, call) ∷ m) c =
      let (p, q, r, t) = finish_all-same i e m (finish (record call { error = some e }) c) in
      (p, q, r, omega (arith, t, times-append i c.finished (record call { error = some e } ∷ [])))

  terminate-Accounts :
      (i n total : ℕ) (e : Text) (c : Client A B)
      → c.shutdown ≡ false
      → Accounts i n total c
      → Accounts i n total (terminate_calls e c)
  unfolding terminate_calls
  terminate-Accounts i n total e c on h =
      let (p, q, r, t) = finish_all-same i e c.pending (record c { shutdown = true }) in
      record {
        distinct = rw p h.distinct;
        unused = λ k below. rw p (h.unused k (rw (← q) below));
        bound = rw q h.bound;
        sum = ground (arith, p, r, t, on, h.sum);
      }

  -- The client without the call of a number.
  abbrev without : ℕ → Client A B → Client A B
  without k c = record c { pending = delete ℕ_discrete k c.pending }

  pub without-unused :
      (j k : ℕ) (m : List (ℕ × Call A B))
      → lookup ℕ_discrete k m ≡ none
      → lookup ℕ_discrete k (delete ℕ_discrete j m) ≡ none
  without-unused j k m e = elim (ℕ_discrete k j) [
    | yes p ↦ ground (arith, p, lookup-delete_self ℕ_discrete j m)
    | no p ↦ ground (arith, e, lookup-delete_ne ℕ_discrete j k m p)
  ]

  without-Accounts :
      (i n total part k : ℕ) (c : Client A B)
      → c.shutdown ≡ false
      → Accounts i n total c
      → waiting i c.pending ≡ part + waiting i (delete ℕ_discrete k c.pending)
      → (call : Call A B) → ite (ℕ_discrete call.id i) 1 0 ≡ part
      → Accounts i n total (finish call (without k c))
  unfolding finish times
  without-Accounts i n total part k c on h e call mine = record {
    distinct = delete-IsMap ℕ_discrete k c.pending h.distinct;
    unused = λ j below. without-unused k j c.pending (h.unused j below);
    bound = h.bound;
    sum = ground (arith, on, h.sum, e, mine, times-append i c.finished (call ∷ []));
  }

  -- Nothing is pending under the number, so the round changes no count.
  skip-Accounts :
      (i n total k : ℕ) (c : Client A B)
      → lookup ℕ_discrete k c.pending ≡ none
      → Accounts i n total c
      → Accounts i n total (without k c)
  skip-Accounts i n total k c e h = record {
    distinct = delete-IsMap ℕ_discrete k c.pending h.distinct;
    unused = λ j below. without-unused k j c.pending (h.unused j below);
    bound = h.bound;
    sum = ground (arith, h.sum, waiting-delete-none i k c.pending e);
  }

  settled-Accounts :
      (errorf : Text → Text) (h : Text) (body : Body B) (skipped : Option Text) (i n total : ℕ)
      (call : Call A B) (c : Client A B)
      → c.shutdown ≡ false
      → ((call' : Call A B) → call'.id ≡ call.id → Accounts i n total (finish call' c))
      → Accounts i n total (settle errorf h body skipped call c).0
        × ((settle errorf h body skipped call c).0.shutdown ≡ false)
  unfolding settle finish
  settled-Accounts errorf (x ∷ s) body skipped i n total call c on all = (all _ refl, on)
  settled-Accounts errorf [] (decoded r) skipped i n total call c on all = (all _ refl, on)
  settled-Accounts errorf [] (broken e) skipped i n total call c on all = (all _ refl, on)

  -- A message for a number under which nothing is pending, and for one with a call.
  round_missed :
      (errorf : Text → Text) (h : Header) (body : Body B) (skipped : Option Text) (c : Client A B)
      → lookup ℕ_discrete h.seq c.pending ≡ none
      → (receive_round errorf (message h body skipped) c).0 ≡ without h.seq c
  unfolding remove_call receive_round
  round_missed errorf h body skipped c e = rw (e, receive_round) refl

  round_found :
      (errorf : Text → Text) (h : Header) (body : Body B) (skipped : Option Text) (c : Client A B)
      (call : Call A B)
      → lookup ℕ_discrete h.seq c.pending ≡ some call
      → receive_round errorf (message h body skipped) c
        ≡ settle errorf h.error body skipped call (without h.seq c)
  unfolding remove_call receive_round
  round_found errorf h body skipped c call e = rw (e, receive_round) refl

  round-Accounts :
      (errorf : Text → Text) (m : Incoming B) (i n total : ℕ) (c : Client A B)
      → c.shutdown ≡ false
      → Accounts i n total c
      → Accounts i n total (receive_round errorf m c).0
        × ((receive_round errorf m c).0.shutdown ≡ false)
  round-Accounts errorf (no_header e) i n total c on h = unfold receive_round in (h, on)
  round-Accounts errorf (message header body skipped) i n total c on h =
      elim (Option-cases (lookup ℕ_discrete header.seq c.pending)) [
        | inl e ↦
            rw (round_missed errorf header body skipped c e)
              (skip-Accounts i n total header.seq c e h, on)
        | inr (call, e) ↦ rw (round_found errorf header body skipped c call e) (
            settled-Accounts errorf header.error body skipped i n total call (without header.seq c)
              on
              (λ call' same.
                without-Accounts i n total (ite (ℕ_discrete call.id i) 1 0) header.seq c on h
                  (waiting-delete i header.seq call c.pending h.distinct e) call'
                  (ap (λ j. ite (ℕ_discrete j i) 1 0) same)))
      ]

  pub receive-Accounts :
      (errorf : Text → Text) (m : Incoming B) (i n total : ℕ) (c : Client A B)
      → c.shutdown ≡ false
      → Accounts i n total c
      → Accounts i n total (receive errorf (m ∷ []) c)
  unfolding receive
  receive-Accounts errorf m i n total c on h =
      let (r, off) = round-Accounts errorf m i n total c on h in
      elim (Option-cases (receive_round errorf m c).1) [
        | inl e ↦ rw (e, receive) r
        | inr (x, e) ↦
            rw (e, receive) (terminate-Accounts i n total x (receive_round errorf m c).0 off r)
      ]
