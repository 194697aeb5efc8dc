-- ===== src/XClient/Run.antt =====
-- SuRPC/xclient/xclient.go: what happens to an XClient, in any order.
use golang_frame_practice.Client.{Client, is_available}
use golang_frame_practice.Client.Run.{step}
use golang_frame_practice.Client.Dial.{Options, Dialled}
use golang_frame_practice.Client.Unavailable.{step-unavailable}
use golang_frame_practice.Common.Outcome.{Outcome}
use golang_frame_practice.Common.{
  ℕ, ◌<◌, ◌≡◌, refl, inl, inr, false, Option, List, [], ◌∷◌, ◌++◌, lookup, Text, arith,
}
use golang_frame_practice.Discovery.{SuRegistryDiscovery, SelectMode}
use golang_frame_practice.Flight.{update}
use golang_frame_practice.XClient.Cache.{IsValid, close_all-IsValid}
use golang_frame_practice.XClient.Dials.{dial-IsValid}
use golang_frame_practice.XClient.{XClient, new_x_client, close_all, dial}

-- `dial` and `Close`, each under the lock, and a step of one of the clients.
pub data Event (A B : Type 0) : Type 0 where
  dials : Text → Event A B
  closes : Event A B
  steps : ℕ → golang_frame_practice.Client.Run.Step A B → Event A B

module _ {A B : Type 0} (errorf : Text → Text) (closed : ℕ → Outcome (Unit {0}))
    (connect : Option Options → Dialled → Outcome (Client A B)) where
  unfoldable pub happen : XClient A B → Event A B → XClient A B
  happen x (dials rpc_addr) = (dial closed connect rpc_addr x).0
  happen x closes = close_all closed x
  happen x (steps c s) = record x { heap = update x.heap c (step errorf (x.heap c) s) }

  unfoldable pub run : XClient A B → List (Event A B) → XClient A B
  run x [] = x
  run x (e ∷ events) = run (happen x e) events

  shut_step-IsValid :
      (c : ℕ) (s : golang_frame_practice.Client.Run.Step A B) (x : XClient A B)
      → IsValid x
      → IsValid (record x { heap = update x.heap c (step errorf (x.heap c) s) })
  shut_step-IsValid c s x v = record {
    distinct = v.distinct;
    made = v.made;
    own = v.own;
    parsed = v.parsed;
    shut = λ e h. elim (v.shut e h) [
      | inl q ↦ inl q
      | inr off ↦ inr (ground (arith, off, step-unavailable errorf (x.heap e) s off))
    ];
  }

  pub happen-IsValid : (e : Event A B) (x : XClient A B) → IsValid x → IsValid (happen x e)
  unfolding happen
  happen-IsValid (dials addr) x v = dial-IsValid closed connect addr x v
  happen-IsValid closes x v = (close_all-IsValid closed x v).0
  happen-IsValid (steps c s) x v = shut_step-IsValid c s x v

  run-IsValid : (events : List (Event A B)) (x : XClient A B) → IsValid x → IsValid (run x events)
  unfolding run
  run-IsValid [] x v = v
  run-IsValid (e ∷ events) x v = run-IsValid events (happen x e) (happen-IsValid e x v)

  pub new_x_client-IsValid :
      (d : SuRegistryDiscovery) (o : Option Options) (mode : SelectMode) (heap : ℕ → Client A B)
      → IsValid (new_x_client d o mode heap)
  unfolding new_x_client lookup
  new_x_client-IsValid d o mode heap = record {
    distinct = tt;
    made = λ k c e. cc;
    own = λ j k c e f. cc;
    parsed = λ k c e. cc;
    shut = λ c h. absurd (omega (arith, h));
  }

  run_all :
      (events : List (Event A B)) (x : XClient A B)
      → run x (events ++ closes ∷ []) ≡ close_all closed (run x events)
  unfolding run happen
  run_all [] x = refl
  run_all (e ∷ events) x = run_all events (happen x e)

  emptied :
      (x : XClient A B)
      → IsValid x
      → x.clients ≡ []
      → (c : ℕ) → c < x.next
      → is_available (x.heap c) ≡ false
  unfolding lookup
  emptied x v gone c h = elim (v.shut c h) [
    | inr off ↦ off
    | inl (k, q) ↦ absurd (ground (arith, q, gone))
  ]

  -- From a new XClient, after any sequence of `dial`, `Close` and steps of its clients: a client that it
  -- has made is in the cache, under one address only and one that can be parsed, or cannot be used any
  -- more. After one more `Close`, the cache is empty and no client that it has made can be used.
  pub run-IsValid_close :
      (d : SuRegistryDiscovery) (o : Option Options) (mode : SelectMode) (heap : ℕ → Client A B)
      (events : List (Event A B))
      → IsValid (run (new_x_client d o mode heap) events)
        × ((run (new_x_client d o mode heap) (events ++ closes ∷ [])).clients ≡ [])
        × ((c : ℕ)
            → c < (run (new_x_client d o mode heap) (events ++ closes ∷ [])).next
            → is_available ((run (new_x_client d o mode heap) (events ++ closes ∷ [])).heap c)
              ≡ false)
  run-IsValid_close d o mode heap events =
      let x : XClient A B = run (new_x_client d o mode heap) events in
      let v : IsValid x = run-IsValid events _ (new_x_client-IsValid d o mode heap) in
      let (w, gone) = close_all-IsValid closed x v in
      (
        v,
        rw (run_all events (new_x_client d o mode heap)) gone,
        rw (run_all events (new_x_client d o mode heap)) (emptied (close_all closed x) w gone),
      )
