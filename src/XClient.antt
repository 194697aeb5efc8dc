-- ===== src/XClient.antt =====
-- SuRPC/xclient/xclient.go: the clients that an XClient keeps for its servers, and the calls over them.
-- A `*Client` is a number into the heap, since the cache, the calls and `receive` share it.
pub mod Run
pub mod Cache
pub mod Keeps
pub mod Dials
pub mod Broadcasts
pub mod Errors
pub mod Replies
mod Tests
use golang_frame_practice.Client.{Client, close, is_available}
use golang_frame_practice.Client.Dial.{Options, Dialled, x_dial}
use golang_frame_practice.Common.Assoc.{insert, delete}
use golang_frame_practice.Common.Outcome.{Outcome, ok, err, panics, hangs, exits, ◌>>=◌}
use golang_frame_practice.Common.{
  ℕ, ◌+◌, Bool, true, false, Option, none, some, List, [], ◌∷◌, lookup, if◌then◌else◌, Text,
  text_dec,
}
use golang_frame_practice.Discovery.{SelectMode, SuRegistryDiscovery, su_get}
use golang_frame_practice.Flight.{update}

-- The struct `XClient` over a registry; `next` is a pointer that no client has had.
pub record XClient (A B : Type 0) : Type 0 where
  pub d : SuRegistryDiscovery
  pub mode : SelectMode
  pub option : Option Options
  pub clients : List (Text × ℕ)
  pub heap : ℕ → Client A B
  pub next : ℕ

-- `connect` is the part of `Dial` and `DialHTTP` that talks to the network, and `closed` what the
-- codec of a client answers to `Close`.
module _ {A B : Type 0} where
  -- `NewXClient`; the heap holds clients that nobody has yet.
  unfoldable pub new_x_client :
      SuRegistryDiscovery → Option Options → SelectMode → (ℕ → Client A B) → XClient A B
  new_x_client d option mode heap = record {
    d = d;
    mode = mode;
    option = option;
    clients = [];
    heap = heap;
    next = 0;
  }

  module _ (closed : ℕ → Outcome (Unit {0})) where
    -- `client.Close()` and `delete`, which `Close` and `dial` do.
    unfoldable pub discard : Text → ℕ → XClient A B → XClient A B
    discard key c x = record x {
      clients = delete text_dec key x.clients;
      heap = update x.heap c (close (closed c) (x.heap c)).0;
    }

    -- The loop of `Close` over the entries.
    unfoldable pub discard_all : List (Text × ℕ) → XClient A B → XClient A B
    discard_all [] x = x
    discard_all ((key, c) ∷ entries) x = discard_all entries (discard key c x)

    -- `Close`
    unfoldable pub close_all : XClient A B → XClient A B
    close_all x = discard_all x.clients x

    -- The first half of `dial`: the client that is kept, unless it cannot be used any more.
    unfoldable pub kept : Text → XClient A B → XClient A B × Option ℕ
    kept rpc_addr x = elim (lookup text_dec rpc_addr x.clients) [
      | none ↦ (x, none)
      | some c ↦ if is_available (x.heap c) then (x, some c) else (discard rpc_addr c x, none)
    ]

    -- The second half of `dial`, by what `XDial` gives.
    unfoldable pub keep : Text → Outcome (Client A B) → XClient A B → XClient A B × Outcome ℕ
    keep rpc_addr (ok client) x = (
      record x {
        clients = insert text_dec rpc_addr x.next x.clients;
        heap = update x.heap x.next client;
        next = x.next + 1;
      },
      ok x.next,
    )
    keep rpc_addr (err e) x = (x, err e)
    keep rpc_addr (panics e) x = (x, panics e)
    keep rpc_addr hangs x = (x, hangs)
    keep rpc_addr (exits msg) x = (x, exits msg)

    module _ (connect : Option Options → Dialled → Outcome (Client A B)) where
      -- `dial`
      unfoldable pub dial : Text → XClient A B → XClient A B × Outcome ℕ
      dial rpc_addr x =
          let (x', r) = kept rpc_addr x in
          elim r [
            | some c ↦ (x', ok c)
            | none ↦ keep rpc_addr (x_dial rpc_addr >>= connect x'.option) x'
          ]

      -- `Call` up to `client.Call`: the server from the discovery, and the client for it.
      unfoldable pub call :
          (Text → Outcome Text) → (ℕ → ℕ) → ℕ → XClient A B → XClient A B × Outcome ℕ
      call http_get intn now x =
          let (d', r) = su_get http_get intn now x.d x.mode in
          elim r [
            | ok rpc_addr ↦ dial rpc_addr (record x { d = d' })
            | err e ↦ (record x { d = d' }, err e)
            | panics e ↦ (record x { d = d' }, panics e)
            | hangs ↦ (record x { d = d' }, hangs)
            | exits e ↦ (record x { d = d' }, exits e)
          ]

-- What `Broadcast` keeps under its lock: the first error, whether the reply is set or not wanted, the
-- reply, and whether the context has been cancelled.
pub record Merged (R : Type 0) : Type 0 where
  pub error : Option Text
  pub reply_done : Bool
  pub reply : Option R
  pub cancelled : Bool

module _ {R : Type 0} where
  -- Before the loop of `Broadcast`; `wanted` says that the reply is not nil.
  unfoldable pub unmerged : Bool → Merged R
  unmerged wanted = record {
    error = none;
    reply_done = if wanted then false else true;
    reply = none;
    cancelled = false;
  }

  -- The section of a goroutine under the lock, after an error and after a reply.
  unfoldable pub merge_error : Text → Merged R → Merged R
  merge_error e m = elim m.error [
    | none ↦ record m { error = some e; cancelled = true }
    | some _ ↦ m
  ]

  unfoldable pub merge_reply : R → Merged R → Merged R
  merge_reply b m = if m.reply_done then m else record m { reply = some b; reply_done = true }
