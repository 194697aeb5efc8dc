-- ===== src/Client/Pending.antt =====
-- SuRPC/client.go: the counts of pending and completed calls, and what `send` does to them.
use native.Mathlib.Nat.{mod-eq_of_lt}
use golang_frame_practice.Common.Assoc.{insert, delete, IsMap, insert-IsMap, lookup-insert}
use golang_frame_practice.Common.Outcome.{ok, err}
use golang_frame_practice.Common.{
  ℕ, ◌+◌, ◌%◌, ◌^◌, ◌≤◌, ◌<◌, ◌≡◌, refl, ap, true, false, ◌||◌, none, some, List, [], ◌∷◌, ◌++◌,
  lookup, ite, ℕ_discrete, if◌then◌else◌, arith, inl, inr, Bool-cases,
}
use golang_frame_practice.Client.{
  Call, Client, register_call, finish, send_registered, send, err_shutdown,
}

module _ {A B : Type 0} where
  -- How often the call with the pointer `i` stands in a list.
  unfoldable pub times : ℕ → List (Call A B) → ℕ
  times i [] = 0
  times i (call ∷ calls) = ite (ℕ_discrete call.id i) 1 0 + times i calls

  -- The same in the pending map.
  unfoldable pub waiting : ℕ → List (ℕ × Call A B) → ℕ
  waiting i [] = 0
  waiting i ((_, call) ∷ m) = ite (ℕ_discrete call.id i) 1 0 + waiting i m

  pub times-append : (i : ℕ) (l m : List (Call A B)) → times i (l ++ m) ≡ times i l + times i m
  unfolding times
  times-append i [] m = omega arith
  times-append i (call ∷ l) m = omega (arith, times-append i l m)

  waiting-insert :
      (i k : ℕ) (call : Call A B) (m : List (ℕ × Call A B))
      → lookup ℕ_discrete k m ≡ none
      → waiting i (insert ℕ_discrete k call m) ≡ ite (ℕ_discrete call.id i) 1 0 + waiting i m
  unfolding waiting insert lookup
  waiting-insert i k call [] h = refl
  waiting-insert i k call ((j, w) ∷ m) h = ground (arith, waiting-insert i k call m)

  pub waiting-delete-none :
      (i k : ℕ) (m : List (ℕ × Call A B))
      → lookup ℕ_discrete k m ≡ none
      → waiting i (delete ℕ_discrete k m) ≡ waiting i m
  unfolding waiting delete lookup
  waiting-delete-none i k [] h = refl
  waiting-delete-none i k ((j, w) ∷ m) h = ground (arith, waiting-delete-none i k m)

  pub waiting-delete :
      (i k : ℕ) (call : Call A B) (m : List (ℕ × Call A B))
      → IsMap ℕ_discrete m
      → lookup ℕ_discrete k m ≡ some call
      → waiting i m ≡ ite (ℕ_discrete call.id i) 1 0 + waiting i (delete ℕ_discrete k m)
  unfolding waiting delete lookup
  waiting-delete i k call [] h e = ground arith
  waiting-delete i k call ((j, w) ∷ m) h e = elim (ℕ_discrete j k) [
    | yes p ↦ ground (arith, p, e, h.0, waiting-delete-none i j m)
    | no p ↦ ground (arith, p, e, waiting-delete i k call m h.1)
  ]

  -- The pending map has only numbers that have been given out, and the calls add up to `total`.
  pub record Accounts (i n total : ℕ) (c : Client A B) : Type 0 where
    pub distinct : IsMap ℕ_discrete c.pending
    pub unused : (k : ℕ) → c.seq ≤ k → lookup ℕ_discrete k c.pending ≡ none
    pub bound : c.seq ≤ n
    pub sum : times i c.finished + (if c.shutdown then 0 else waiting i c.pending) ≡ total

  -- The client after a call that it does not take, and after one that it takes.
  abbrev refused : Call A B → Client A B → Client A B
  refused call c = finish (record call { error = some err_shutdown }) c

  abbrev taken : Call A B → Client A B → Client A B
  taken call c = record c {
    pending = insert ℕ_discrete c.seq (record call { seq = c.seq }) c.pending;
    seq = (c.seq + 1) % 2 ^ 64;
    written =
        c.written
        ++ (record { service_method = call.service_method; seq = c.seq; error = [] }, call.args)
          ∷ [];
  }

  register_refused :
      (call : Call A B) (c : Client A B)
      → (c.shutdown || c.closing) ≡ true
      → register_call call c ≡ (c, err err_shutdown)
  unfolding register_call
  register_refused call c off = rw (off, register_call) refl

  register_taken :
      (call : Call A B) (c : Client A B)
      → (c.shutdown || c.closing) ≡ false
      → register_call call c ≡ (
        record c {
          pending = insert ℕ_discrete c.seq (record call { seq = c.seq }) c.pending;
          seq = (c.seq + 1) % 2 ^ 64;
        },
        ok c.seq,
      )
  unfolding register_call
  register_taken call c on = rw (on, register_call) refl

  send-refused :
      (call : Call A B) (c : Client A B)
      → (c.shutdown || c.closing) ≡ true
      → send call c ≡ refused call c
  unfolding send send_registered
  send-refused call c off = ap (send_registered call) (register_refused call c off)

  send-taken :
      (call : Call A B) (c : Client A B)
      → (c.shutdown || c.closing) ≡ false
      → send call c ≡ taken call c
  unfolding send send_registered
  send-taken call c on = ap (send_registered call) (register_taken call c on)

  refused-Accounts :
      (i n total : ℕ) (call : Call A B) (c : Client A B)
      → Accounts i n total c
      → Accounts i n (ite (ℕ_discrete call.id i) 1 0 + total) (refused call c)
  unfolding finish times
  refused-Accounts i n total call c h = record {
    distinct = h.distinct;
    unused = h.unused;
    bound = h.bound;
    sum =
        omega (
          arith,
          h.sum,
          times-append i c.finished (record call { error = some err_shutdown } ∷ []),
        );
  }

  taken-Accounts :
      (i n total : ℕ) (call : Call A B) (c : Client A B)
      → n + 1 < 2 ^ 64
      → c.shutdown ≡ false
      → Accounts i n total c
      → Accounts i (n + 1) (ite (ℕ_discrete call.id i) 1 0 + total) (taken call c)
  taken-Accounts i n total call c small on h =
      let next : (c.seq + 1) % 2 ^ 64 ≡ c.seq + 1 = mod-eq_of_lt (omega (arith, h.bound)) in
      record {
        distinct = insert-IsMap ℕ_discrete c.seq (record call { seq = c.seq }) c.pending h.distinct;
        unused = λ k below. ground (
          arith,
          next,
          h.unused k,
          lookup-insert ℕ_discrete c.seq k (record call { seq = c.seq }) c.pending,
        );
        bound = omega (arith, next, h.bound);
        sum = ground (
          arith,
          on,
          h.sum,
          waiting-insert i c.seq (record call { seq = c.seq }) c.pending
              (h.unused c.seq (omega arith)),
        );
      }

  pub longer : (i n total : ℕ) (c : Client A B) → Accounts i n total c → Accounts i (n + 1) total c
  longer i n total c h = record {
    distinct = h.distinct;
    unused = h.unused;
    bound = omega (arith, h.bound);
    sum = h.sum;
  }

  pub send-Accounts :
      (i n total : ℕ) (call : Call A B) (c : Client A B)
      → n + 1 < 2 ^ 64
      → Accounts i n total c
      → Accounts i (n + 1) (ite (ℕ_discrete call.id i) 1 0 + total) (send call c)
  send-Accounts i n total call c small h = elim (Bool-cases (c.shutdown || c.closing)) [
    | inl off ↦
        rw (send-refused call c off)
          (longer i n _ (refused call c) (refused-Accounts i n total call c h))
    | inr on ↦
        rw (send-taken call c on) (taken-Accounts i n total call c small (ground (arith, on)) h)
  ]
