-- ===== src/Common/Assoc.antt =====
-- Go maps as association lists: `lookup` is the library's, by a decision on keys. A read of a
-- missing key gives `none`; a write replaces or appends; a delete drops every entry of the key.
use mathlib.Core.List.{List, [], ◌∷◌, lookup}
use mathlib.Core.Logic.{ite, ◌≢◌}
use mathlib.Core.Option.{none, some}
use mathlib.Core.Path.{◌≡◌, refl}
use native.Mathlib.Omega.{arith}

module _ {ℓ} {K V : Type ℓ} (dec : Discrete K) where
  -- m[k] = v
  unfoldable pub insert : K → V → List (K × V) → List (K × V)
  insert k v [] = (k, v) ∷ []
  insert k v ((j, w) ∷ m) = ite (dec j k) ((k, v) ∷ m) ((j, w) ∷ insert k v m)

  -- delete(m, k)
  unfoldable pub delete : K → List (K × V) → List (K × V)
  delete k [] = []
  delete k ((j, w) ∷ m) = let rest = delete k m in ite (dec j k) rest ((j, w) ∷ rest)

  pub lookup-insert_self : (k : K) (v : V) (m : List (K × V)) → lookup dec k (insert k v m) ≡ some v
  unfolding lookup insert
  lookup-insert_self k v [] = ground arith
  lookup-insert_self k v ((j, w) ∷ m) = ground (arith, lookup-insert_self k v m)

  pub lookup-insert_ne :
      (k q : K) (v : V) (m : List (K × V)) → q ≢ k → lookup dec q (insert k v m) ≡ lookup dec q m
  unfolding lookup insert
  lookup-insert_ne k q v [] h = ground arith
  lookup-insert_ne k q v ((j, w) ∷ m) h = ground (arith, lookup-insert_ne k q v m h)

  pub lookup-delete_self : (k : K) (m : List (K × V)) → lookup dec k (delete k m) ≡ none
  unfolding lookup delete
  lookup-delete_self k [] = refl
  lookup-delete_self k ((j, w) ∷ m) = ground (arith, lookup-delete_self k m)

  pub lookup-delete_ne :
      (k q : K) (m : List (K × V)) → q ≢ k → lookup dec q (delete k m) ≡ lookup dec q m
  unfolding lookup delete
  lookup-delete_ne k q [] h = refl
  lookup-delete_ne k q ((j, w) ∷ m) h = ground (arith, lookup-delete_ne k q m h)

  pub delete-none : (k : K) (m : List (K × V)) → lookup dec k m ≡ none → delete k m ≡ m
  unfolding lookup delete
  delete-none k [] h = refl
  delete-none k ((j, w) ∷ m) h = ground (arith, delete-none k m)

  -- Each key stands once.
  abbrev pub IsMap : List (K × V) → Type ℓ
  IsMap [] = Unit
  IsMap ((k, v) ∷ m) = (lookup dec k m ≡ none) × IsMap m

  pub insert-IsMap : (k : K) (v : V) (m : List (K × V)) → IsMap m → IsMap (insert k v m)
  unfolding insert lookup
  insert-IsMap k v [] h = (refl, tt)
  insert-IsMap k v ((j, w) ∷ m) h = elim (dec j k) [
    | yes p ↦ ground (arith, p, h)
    | no p ↦ ground (arith, p, lookup-insert_ne k j v m p, insert-IsMap k v m h.1)
  ]

  lookup-delete-none :
      (q k : K) (m : List (K × V)) → lookup dec q m ≡ none → lookup dec q (delete k m) ≡ none
  unfolding lookup delete
  lookup-delete-none q k [] h = refl
  lookup-delete-none q k ((j, w) ∷ m) h = ground (arith, lookup-delete-none q k m)

  pub delete-IsMap : (k : K) (m : List (K × V)) → IsMap m → IsMap (delete k m)
  unfolding delete
  delete-IsMap k [] h = tt
  delete-IsMap k ((j, w) ∷ m) h = ground (arith, lookup-delete-none j k m h.0, delete-IsMap k m h.1)

  pub lookup-insert :
      (k q : K) (v : V) (m : List (K × V))
      → lookup dec q (insert k v m) ≡ ite (dec q k) (some v) (lookup dec q m)
  lookup-insert k q v m = elim (dec q k) [
    | yes p ↦ ground (arith, p, lookup-insert_self k v m)
    | no p ↦ ground (arith, p, lookup-insert_ne k q v m p)
  ]

  pub insert_comm :
      (j k q : K) (v w : V) (m : List (K × V))
      → j ≢ k
      → lookup dec q (insert k w (insert j v m)) ≡ lookup dec q (insert j v (insert k w m))
  insert_comm j k q v w m ne = ground (
    arith,
    ne,
    lookup-insert k q w (insert j v m),
    lookup-insert j q v m,
    lookup-insert j q v (insert k w m),
    lookup-insert k q w m,
  )
