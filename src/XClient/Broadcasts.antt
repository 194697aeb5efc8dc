-- ===== src/XClient/Broadcasts.antt =====
-- SuRPC/xclient/xclient.go: the goroutines of `Broadcast`, one for each server, in any order.
use golang_frame_practice.Client.{Client}
use golang_frame_practice.Client.Dial.{Options, Dialled}
use golang_frame_practice.Common.Outcome.{Outcome, ok, err}
use golang_frame_practice.Common.{ℕ, ◌≡◌, Bool, Option, List, ◌∷◌, ◌++◌, map, Text}
use golang_frame_practice.XClient.Run.{Event, happen}
use golang_frame_practice.XClient.{XClient, dial, Merged, unmerged, merge_error, merge_reply}

-- A goroutine: before `dial`, in `client.Call`, and behind its section under the lock.
pub data Task : Type 0 where
  starting : Text → Task
  calling : Text → ℕ → Task
  over : Text → Task

-- The XClient, what has been merged, and the goroutines in the order of the servers.
pub record Cast (A B R : Type 0) : Type 0 where
  pub x_client : XClient A B
  pub merged : Merged R
  pub tasks : List Task

-- `Broadcast` behind its loop, before any goroutine has run.
abbrev pub started : {A B R : Type 0} → XClient A B → Bool → List Text → Cast A B R
started x wanted servers = record {
  x_client = x;
  merged = unmerged wanted;
  tasks = map starting servers;
}

module _ {A B : Type 0} (errorf : Text → Text) (closed : ℕ → Outcome (Unit {0}))
    (connect : Option Options → Dialled → Outcome (Client A B)) where
  -- A goroutine dials, with or without success, or its call ends with a reply or an error. What else
  -- happens to the XClient is an event of its own.
  pub data Step {R : Type 0} : Cast A B R → Cast A B R → Type 0 where
    connects :
        (x x' : XClient A B) (m : Merged R) (l r : List Task) (addr : Text) (c : ℕ)
        → dial closed connect addr x ≡ (x', ok c)
        → Step
            (record { x_client = x; merged = m; tasks = l ++ starting addr ∷ r })
            (record { x_client = x'; merged = m; tasks = l ++ calling addr c ∷ r })
    fails :
        (x x' : XClient A B) (m : Merged R) (l r : List Task) (addr e : Text)
        → dial closed connect addr x ≡ (x', err e)
        → Step
            (record { x_client = x; merged = m; tasks = l ++ starting addr ∷ r })
            (record { x_client = x'; merged = merge_error e m; tasks = l ++ over addr ∷ r })
    replies :
        (x : XClient A B) (m : Merged R) (l r : List Task) (addr : Text) (c : ℕ) (b : R)
        → Step
            (record { x_client = x; merged = m; tasks = l ++ calling addr c ∷ r })
            (record { x_client = x; merged = merge_reply b m; tasks = l ++ over addr ∷ r })
    errs :
        (x : XClient A B) (m : Merged R) (l r : List Task) (addr : Text) (c : ℕ) (e : Text)
        → Step
            (record { x_client = x; merged = m; tasks = l ++ calling addr c ∷ r })
            (record { x_client = x; merged = merge_error e m; tasks = l ++ over addr ∷ r })
    elsewhere :
        (x : XClient A B) (m : Merged R) (tasks : List Task) (event : Event A B)
        → Step
            (record { x_client = x; merged = m; tasks = tasks })
            (record { x_client = happen errorf closed connect x event; merged = m; tasks = tasks })

  -- The states that follow from a state.
  pub data Reach {R : Type 0} (s : Cast A B R) : Cast A B R → Type 0 where
    here : Reach s s
    later : {t u : Cast A B R} → Reach s t → Step t u → Reach s u
