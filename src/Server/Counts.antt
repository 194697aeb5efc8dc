-- ===== src/Server/Counts.antt =====
-- SuRPC/server.go: the counts of headers read, responses written and responses owed on a connection.
use golang_frame_practice.Client.{Header}
use golang_frame_practice.Common.{
  ℕ, ◌+◌, ◌-◌, ◌≡◌, ◌≢◌, ◌⊎◌, inl, inr, refl, List, [], ◌∷◌, ◌++◌, map, Text, arith, All, length,
  ite, ℕ_discrete,
}
use golang_frame_practice.Server.Handling.{Sent, result, failure, time_out, Handling}
use golang_frame_practice.Server.Requests.{Reply, Request}
use golang_frame_practice.Server.Connection.{Loop, reading, refusing, waiting, closed, response}

-- How often a number is the sequence number of an entry.
abbrev pub times : {X : Type 0} → (X → ℕ) → ℕ → List X → ℕ
times f q [] = 0
times f q (x ∷ l) = ite (ℕ_discrete (f x) q) 1 0 + times f q l

abbrev pub read_times : ℕ → List Header → ℕ
read_times q l = times (λ h. h.seq) q l

abbrev pub written_times : {B : Type 0} → ℕ → List (Header × Reply B) → ℕ
written_times q l = times (λ w. w.0.seq) q l

pub times-append :
    {X : Type 0} (f : X → ℕ) (q : ℕ) (l m : List X) → times f q (l ++ m) ≡ times f q l + times f q m
times-append f q [] m = omega arith
times-append f q (x ∷ l) m = omega (arith, times-append f q l m)

pub Loop-cases : (l : Loop) → (l ≢ closed) ⊎ (l ≡ closed)
Loop-cases reading = inl (λ e. cc)
Loop-cases (refusing h x) = inl (λ e. cc)
Loop-cases waiting = inl (λ e. cc)
Loop-cases closed = inr refl

-- The response to a refused request that is still to be written.
abbrev pub owed : ℕ → Loop → ℕ
owed q (refusing h e) = ite (ℕ_discrete h.seq q) 1 0
owed q _ = 0

module _ {A B : Type 0} where
  -- The requests without a response.
  abbrev pub pending : ℕ → List (Request A × Handling B) → ℕ
  pending q [] = 0
  pending q ((r, h) ∷ l) = ite (ℕ_discrete r.header.seq q) (1 - length h.responses) 0 + pending q l

  pub pending-append :
      (q : ℕ) (l m : List (Request A × Handling B)) → pending q (l ++ m) ≡ pending q l + pending q m
  pending-append q [] m = omega arith
  pending-append q ((r, h) ∷ l) m = omega (arith, pending-append q l m)

  pub All-append :
      (P : Request A × Handling B → Type 0) (l m : List (Request A × Handling B))
      → All P l
      → All P m
      → All P (l ++ m)
  All-append P [] m a b = b
  All-append P (x ∷ l) m a b = (a.0, All-append P l m a.1 b)

  pub All-middle :
      (P : Request A × Handling B → Type 0) (x y : Request A × Handling B)
      (pre post : List (Request A × Handling B))
      → (P x → P y)
      → All P (pre ++ x ∷ post)
      → All P (pre ++ y ∷ post)
  All-middle P x y [] post f a = (f a.0, a.1)
  All-middle P x y (z ∷ pre) post f a = (a.0, All-middle P x y pre post f a.1)

  pub All-at :
      (P : Request A × Handling B → Type 0) (x : Request A × Handling B)
      (pre post : List (Request A × Handling B))
      → All P (pre ++ x ∷ post)
      → P x
  All-at P x [] post a = a.0
  All-at P x (z ∷ pre) post a = All-at P x pre post a.1

module _ {B : Type 0} where
  response-seq : (over : Text) (h : Header) (x : Sent B) → (response over h x).0.seq ≡ h.seq
  unfolding response
  response-seq over h (result b) = refl
  response-seq over h (failure e) = refl
  response-seq over h time_out = refl

  pub written_times-map :
      (over : Text) (q : ℕ) (h : Header) (new : List (Sent B))
      → written_times q (map (response over h) new) ≡ ite (ℕ_discrete h.seq q) (length new) 0
  written_times-map over q h [] = ground arith
  written_times-map over q h (x ∷ new) =
      ground (arith, response-seq over h x, written_times-map over q h new)
