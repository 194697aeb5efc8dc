-- ===== src/Client/Context.antt =====
-- SuRPC/client.go: `Call`, which gives up a call when its context is done.
use golang_frame_practice.Client.{Call, Client, new_client, remove_call}
use golang_frame_practice.Client.Pending.{times, Accounts, waiting-delete}
use golang_frame_practice.Client.Receive.{without-unused}
use golang_frame_practice.Client.Run.{Step, run, issued, run-Accounts, new_client-Accounts}
use golang_frame_practice.Common.Assoc.{delete-IsMap}
use golang_frame_practice.Common.Outcome.{Outcome, ok, err}
use golang_frame_practice.Common.{
  ℕ, ◌+◌, ◌^◌, ◌<◌, ◌≡◌, false, none, some, List, ◌++◌, lookup, ℕ_discrete, length, Text, text,
  arith,
}

module _ {A B : Type 0} where
  -- `Call` when its context is done before the call: the entry of its number goes.
  unfoldable pub cancel : ℕ → Text → Client A B → Client A B × Outcome (Unit {0})
  cancel seq e c = ((remove_call seq c).0, err (text "rpc client: call failed: " ++ e))

  -- `Call` when the call comes out of its channel.
  unfoldable pub returned : Call A B → Outcome (Unit {0})
  returned call = elim call.error [ none ↦ ok tt | some e ↦ err e ]

  cancel-Accounts :
      (i n seq : ℕ) (e : Text) (call : Call A B) (c : Client A B)
      → c.shutdown ≡ false
      → lookup ℕ_discrete seq c.pending ≡ some call
      → call.id ≡ i
      → Accounts i n 1 c
      → Accounts i n 0 (cancel seq e c).0
  unfolding cancel remove_call
  cancel-Accounts i n seq e call c on l mine h = record {
    distinct = delete-IsMap ℕ_discrete seq c.pending h.distinct;
    unused = λ j below. without-unused seq j c.pending (h.unused j below);
    bound = h.bound;
    sum = ground (arith, on, h.sum, mine, waiting-delete i seq call c.pending h.distinct l);
  }

  -- A call that has been handed to the client once, over any sequence of steps, and is pending under a
  -- number while the client reads: if `Call` gives it up, it goes into its channel in no sequence of
  -- steps behind that in which it is not handed over again. There are fewer than 2 ^ 64 - 1 steps.
  pub cancel-times :
      (errorf : Text → Text) (before behind : List (Step A B)) (i seq : ℕ) (e : Text)
      (call : Call A B)
      → 1 + length before + length behind < 2 ^ 64
      → issued i before ≡ 1
      → issued i behind ≡ 0
      → (run errorf new_client before).shutdown ≡ false
      → lookup ℕ_discrete seq (run errorf new_client before).pending ≡ some call
      → call.id ≡ i
      → times i (run errorf (cancel seq e (run errorf new_client before)).0 behind).finished ≡ 0
  cancel-times errorf before behind i seq e call small once never on l mine =
      let c : Client A B = run errorf new_client before in
      let h : Accounts i (1 + length before) (issued i before + 0) c =
        run-Accounts errorf before i 1 0 new_client (omega (arith, small)) new_client-Accounts in
      let k : Accounts i (1 + length before) 0 (cancel seq e c).0 =
        cancel-Accounts i (1 + length before) seq e call c on l mine (record {
          distinct = h.distinct;
          unused = h.unused;
          bound = h.bound;
          sum = omega (arith, h.sum, once);
        }) in
      let r =
        run-Accounts errorf behind i (1 + length before) 0 (cancel seq e c).0 (omega (arith, small))
          k in
      omega (arith, r.sum, never)
