-- ===== src/Client/Unavailable.antt =====
-- SuRPC/client.go: a client that cannot be used stays so.
use golang_frame_practice.Client.{
  Call, Client, Incoming, no_header, message, Body, decoded, broken, close, is_available, send, go,
  register_call, send_registered, finish, finish_all, terminate_calls, remove_call, settle,
  receive_round, receive,
}
use golang_frame_practice.Client.Run.{step, go_call, incoming, close_client}
use golang_frame_practice.Common.Outcome.{Outcome}
use golang_frame_practice.Common.{
  ℕ, ◌≡◌, refl, inl, inr, true, false, some, List, [], ◌∷◌, Text, arith, Option-cases,
}

module _ {A B : Type 0} where
  -- A client that is closing or shut down stays so.
  finish_all-flags :
      (e : Text) (m : List (ℕ × Call A B)) (c : Client A B)
      → ((finish_all e m c).closing ≡ c.closing) × ((finish_all e m c).shutdown ≡ c.shutdown)
  unfolding finish_all finish
  finish_all-flags e [] c = (refl, refl)
  finish_all-flags e ((_, call) ∷ m) c =
      finish_all-flags e m (finish (record call { error = some e }) c)

  round-closing :
      (errorf : Text → Text) (m : Incoming B) (c : Client A B)
      → (receive_round errorf m c).0.closing ≡ c.closing
  unfolding receive_round remove_call settle finish
  round-closing errorf (no_header e) c = refl
  round-closing errorf (message h (decoded b) s) c = ground arith
  round-closing errorf (message h (broken b) s) c = ground arith

  receive_one-closing :
      (errorf : Text → Text) (m : Incoming B) (c : Client A B)
      → (receive errorf (m ∷ []) c).closing ≡ c.closing
  unfolding receive terminate_calls
  receive_one-closing errorf m c =
      let c' : Client A B = (receive_round errorf m c).0 in
      elim (Option-cases (receive_round errorf m c).1) [
        | inl e ↦ ground (arith, e, round-closing errorf m c)
        | inr (x, e) ↦ ground (
          arith,
          e,
          round-closing errorf m c,
          (finish_all-flags x c'.pending (record c' { shutdown = true })).0,
        )
      ]

  pub close-unavailable :
      (o : Outcome (Unit {0})) (c : Client A B) → is_available (close o c).0 ≡ false
  unfolding close is_available
  close-unavailable o c = ground arith

  pub step-unavailable :
      (errorf : Text → Text) (c : Client A B) (s : golang_frame_practice.Client.Run.Step A B)
      → is_available c ≡ false
      → is_available (step errorf c s) ≡ false
  unfolding step go send register_call send_registered finish is_available
  step-unavailable errorf c (go_call call) h = ground arith
  step-unavailable errorf c (incoming m) h = ground (arith, receive_one-closing errorf m c)
  step-unavailable errorf c (close_client o) h = close-unavailable o c
