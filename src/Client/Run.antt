-- ===== src/Client/Run.antt =====
-- SuRPC/client.go: every call that is handed to a client is completed once, or still pending.
use golang_frame_practice.Common.Outcome.{Outcome}
use golang_frame_practice.Common.{
  ℕ, ◌+◌, ◌^◌, ◌<◌, ◌≡◌, refl, ◌∙◌, List, [], ◌∷◌, lookup, ite, ℕ_discrete, length, if◌then◌else◌,
  Text, arith, inl, inr, Bool-cases, none,
}
use golang_frame_practice.Client.{Call, Client, Incoming, new_client, close, go, send, receive}
use golang_frame_practice.Client.Pending.{times, waiting, Accounts, longer, send-Accounts}
use golang_frame_practice.Client.Receive.{receive-Accounts}

-- What happens to a client: a call of `Go`, a message for the goroutine that receives, and `Close`.
pub data Step (A B : Type 0) : Type 0 where
  go_call : Call A B → Step A B
  incoming : Incoming B → Step A B
  close_client : Outcome (Unit {0}) → Step A B

module _ {A B : Type 0} where
  -- The methods hold their locks, so they happen in some order. `Go` is called with a nil channel.
  -- Once `receive` has ended it reads no more.
  unfoldable pub step : (Text → Text) → Client A B → Step A B → Client A B
  step errorf c (go_call call) = (go none call c).0
  step errorf c (incoming m) = if c.shutdown then c else receive errorf (m ∷ []) c
  step errorf c (close_client o) = (close o c).0

  unfoldable pub run : (Text → Text) → Client A B → List (Step A B) → Client A B
  run errorf c [] = c
  run errorf c (s ∷ steps) = run errorf (step errorf c s) steps

  -- How often the call has been handed to the client.
  unfoldable pub issued : ℕ → List (Step A B) → ℕ
  issued i [] = 0
  issued i (go_call call ∷ steps) = ite (ℕ_discrete call.id i) 1 0 + issued i steps
  issued i (_ ∷ steps) = issued i steps

  close-same :
      (o : Outcome (Unit {0})) (c : Client A B)
      → ((close o c).0.pending ≡ c.pending)
        × ((close o c).0.seq ≡ c.seq)
        × ((close o c).0.finished ≡ c.finished)
        × ((close o c).0.shutdown ≡ c.shutdown)
  unfolding close
  close-same o c = ground arith

  close-Accounts :
      (o : Outcome (Unit {0})) (i n total : ℕ) (c : Client A B)
      → Accounts i n total c
      → Accounts i n total (close o c).0
  close-Accounts o i n total c h =
      let (p, q, r, t) = close-same o c in
      record {
        distinct = rw p h.distinct;
        unused = λ k below. rw p (h.unused k (rw (← q) below));
        bound = rw q h.bound;
        sum = ground (arith, p, r, t, h.sum);
      }

  adjust :
      (i : ℕ) {n n' total total' : ℕ} (c : Client A B)
      → n ≡ n'
      → total ≡ total'
      → Accounts i n total c
      → Accounts i n' total' c
  adjust i c e f h = record {
    distinct = h.distinct;
    unused = h.unused;
    bound = omega (arith, h.bound, e);
    sum = h.sum ∙ f;
  }

  pub new_client-Accounts : {i : ℕ} → Accounts i 1 0 (new_client {A = A} {B = B})
  unfolding new_client times waiting lookup
  new_client-Accounts = record {
    distinct = tt;
    unused = λ k below. refl;
    bound = omega arith;
    sum = refl;
  }

  incoming-Accounts :
      (errorf : Text → Text) (m : Incoming B) (i n total : ℕ) (c : Client A B)
      → Accounts i n total c
      → Accounts i n total (step errorf c (incoming m))
  unfolding step
  incoming-Accounts errorf m i n total c h = elim (Bool-cases c.shutdown) [
    | inl off ↦ simp off h
    | inr on ↦ simp on (receive-Accounts errorf m i n total c on h)
  ]

  pub run-Accounts :
      (errorf : Text → Text) (steps : List (Step A B)) (i n total : ℕ) (c : Client A B)
      → n + length steps < 2 ^ 64
      → Accounts i n total c
      → Accounts i (n + length steps) (issued i steps + total) (run errorf c steps)
  unfolding run issued step go
  run-Accounts errorf [] i n total c small h = adjust i c (omega arith) (omega arith) h
  run-Accounts errorf (go_call call ∷ steps) i n total c small h =
      adjust i (run errorf c (go_call call ∷ steps)) (omega arith) (omega arith) (
        run-Accounts errorf steps i (n + 1) _ (send call c) (omega arith)
          (send-Accounts i n total call c (omega arith) h))
  run-Accounts errorf (incoming m ∷ steps) i n total c small h =
      adjust i (run errorf c (incoming m ∷ steps)) (omega arith) (omega arith) (
        run-Accounts errorf steps i (n + 1) total (step errorf c (incoming m)) (omega arith) (
          longer i n total (step errorf c (incoming m)) (incoming-Accounts errorf m i n total c h)))
  run-Accounts errorf (close_client o ∷ steps) i n total c small h =
      adjust i (run errorf c (close_client o ∷ steps)) (omega arith) (omega arith) (
        run-Accounts errorf steps i (n + 1) total (close o c).0 (omega arith)
          (longer i n total (close o c).0 (close-Accounts o i n total c h)))

  -- From a new client, over any sequence of fewer than 2 ^ 64 - 1 calls of `Go`, messages and calls of
  -- `Close`: a call has gone into its channel and is pending, taken together, as often as it was handed
  -- to the client; once `receive` has ended, it has gone into its channel that often.
  pub run-times :
      (errorf : Text → Text) (steps : List (Step A B)) (i : ℕ)
      → 1 + length steps < 2 ^ 64
      → times i (run errorf new_client steps).finished
          + (if (run errorf new_client steps).shutdown
              then 0
              else waiting i (run errorf new_client steps).pending)
        ≡ issued i steps
  run-times errorf steps i small =
      omega (arith, (run-Accounts errorf steps i 1 0 new_client small new_client-Accounts).sum)
