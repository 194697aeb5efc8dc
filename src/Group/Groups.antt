-- ===== src/Group/Groups.antt =====
-- CCache/ccache.go: the map of all groups.
use golang_frame_practice.Common.Assoc.{insert, lookup-insert_self, lookup-insert_ne}
use golang_frame_practice.Common.Outcome.{Outcome, ok, panics}
use golang_frame_practice.Common.{
  ℕ, ◌≡◌, ◌≢◌, Bool, true, false, Option, some, List, lookup, Text, text, text_dec,
}
use golang_frame_practice.Group.{Group, new_group}

-- `NewGroup`; the flag says that the getter is nil. A group of the same name is replaced.
unfoldable pub make_group :
    Bool → Text → ℕ → List (Text × Group) → List (Text × Group) × Outcome Group
make_group true name cache_bytes groups = (groups, panics (text "nil getter"))
make_group false name cache_bytes groups =
    (insert text_dec name (new_group name cache_bytes) groups, ok (new_group name cache_bytes))

-- `GetGroup`: `none` is a nil pointer.
unfoldable pub get_group : Text → List (Text × Group) → Option Group
get_group name groups = lookup text_dec name groups

-- A new group is found under its name, and the groups of other names as before.
pub get_group-make_group :
    (name other : Text) (cache_bytes : ℕ) (groups : List (Text × Group))
    → other ≢ name
    → (get_group name (make_group false name cache_bytes groups).0
        ≡ some (new_group name cache_bytes))
      × (get_group other (make_group false name cache_bytes groups).0 ≡ get_group other groups)
unfolding get_group make_group
get_group-make_group name other cache_bytes groups n = (
  lookup-insert_self text_dec name (new_group name cache_bytes) groups,
  lookup-insert_ne text_dec name other (new_group name cache_bytes) groups n,
)
