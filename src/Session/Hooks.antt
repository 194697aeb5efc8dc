-- ===== src/Session/Hooks.antt =====
-- SORM/session/hook.go: `CallMethod`.
use golang_frame_practice.Common.Outcome.{ok, err}
use golang_frame_practice.Common.{Option, none, some, Text, text, ◌++◌}
use golang_frame_practice.Schema.{Object}
use golang_frame_practice.Session.{Action, after, return}

-- The names of the hooks; `unsupported` is any further method name.
pub data Hook : Type 0 where
  before_query before_insert before_update before_delete : Hook
  after_query after_insert after_update after_delete : Hook
  unsupported : Text → Hook

-- The hooks that the type of an object implements. A hook gets the session and, through its
-- receiver, the object, may change both, and returns an error or nil.
abbrev pub Hooks : Type 0 → Type 0
Hooks D = Hook → Object → Option (Action D (Object × Option Text))

module _ {D : Type 0} (hooks : Hooks D) where
  -- A case of `CallMethod`: the error of the hook is dropped.
  unfoldable pub call_hook : Hook → Object → Action D Object
  call_hook method value s = elim (hooks method value) [
    | none ↦ (s, ok value)
    | some hook ↦ after (hook s) (λ r. return r.0)
  ]

  -- `CallMethod` on a value that is not nil, with the value as the hook leaves it. On nil, as all
  -- other calls are, it does nothing.
  unfoldable pub call_method : Hook → Object → Action D Object
  call_method (unsupported method) value s = (s, err (text "Unsupported hook method: " ++ method))
  call_method method value s = call_hook method value s
