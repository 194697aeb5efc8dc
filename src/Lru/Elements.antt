-- ===== src/Lru/Elements.antt =====
-- CCache/lru/lru.go: the linked list seen as a list of keys and values.
use golang_frame_practice.Common.Assoc.{delete}
use golang_frame_practice.Common.{
  ℕ, suc, ◌+◌, ◌<◌, ◌≡◌, refl, ◌≢◌, Option, none, some, List, [], ◌∷◌, ◌++◌, lookup, ite,
  ℕ_discrete, length, Text, text_dec, All, arith,
}
use golang_frame_practice.Lru.{Element, find_id, remove_id, back}

module _ {V : Type 0} where
  -- The keys and values, most recently used first.
  abbrev pub view : List (Element V) → List (Text × V)
  view [] = []
  view (e ∷ l) = (e.key, e.value) ∷ view l

  -- The pointer of the first element with the key.
  unfoldable pub id_of : Text → List (Element V) → Option ℕ
  id_of k [] = none
  id_of k (e ∷ l) = ite (text_dec k e.key) (some e.id) (id_of k l)

  -- No key and no pointer twice.
  abbrev pub IsDistinct : List (Element V) → Type 0
  IsDistinct [] = Unit
  IsDistinct (e ∷ l) = (id_of e.key l ≡ none) × (find_id e.id l ≡ none) × IsDistinct l

  pub lookup-view-none :
      (k : Text) (l : List (Element V)) → id_of k l ≡ none → lookup text_dec k (view l) ≡ none
  unfolding lookup id_of
  lookup-view-none k [] h = refl
  lookup-view-none k (e ∷ l) h = ground (arith, lookup-view-none k l)

  pub delete-view-none :
      (k : Text) (l : List (Element V)) → id_of k l ≡ none → delete text_dec k (view l) ≡ view l
  unfolding delete id_of
  delete-view-none k [] h = refl
  delete-view-none k (e ∷ l) h = ground (arith, delete-view-none k l)

  -- The element that a key's pointer points to.
  pub record Found (k : Text) (i : ℕ) (l : List (Element V)) : Type 0 where
    pub element : Element V
    pub found : find_id i l ≡ some element
    pub its_key : element.key ≡ k
    pub its_id : element.id ≡ i
    pub read : lookup text_dec k (view l) ≡ some element.value
    pub removed : view (remove_id i l) ≡ delete text_dec k (view l)
    pub gone : id_of k (remove_id i l) ≡ none
    pub freed : find_id i (remove_id i l) ≡ none

  pub find-Found :
      (k : Text) (i : ℕ) (l : List (Element V)) → IsDistinct l → id_of k l ≡ some i → Found k i l
  unfolding lookup id_of find_id remove_id delete
  find-Found k i [] d h = cc
  find-Found k i (e ∷ l) d h = elim (text_dec k e.key) [
    | yes p ↦ record {
      element = e;
      found = ground arith;
      its_key = ground arith;
      its_id = ground arith;
      read = ground arith;
      removed = ground (arith, delete-view-none e.key l);
      gone = ground arith;
      freed = ground arith;
    }
    | no p ↦
        let r : Found k i l = find-Found k i l d.2 (ground arith) in
        record {
          element = r.element;
          found = ground (arith, r.found);
          its_key = r.its_key;
          its_id = r.its_id;
          read = ground (arith, r.read);
          removed = ground (arith, r.removed, r.found);
          gone = ground (arith, r.gone, r.found);
          freed = ground (arith, r.freed, r.found);
        }
  ]

  pub id_of-remove_ne :
      (k q : Text) (i : ℕ) (l : List (Element V))
      → IsDistinct l
      → id_of k l ≡ some i
      → q ≢ k
      → id_of q (remove_id i l) ≡ id_of q l
  unfolding id_of find_id remove_id
  id_of-remove_ne k q i [] d h ne = refl
  id_of-remove_ne k q i (e ∷ l) d h ne = elim (text_dec k e.key) [
    | yes p ↦ ground arith
    | no p ↦
        let t : id_of k l ≡ some i = ground arith in
        let r : Found k i l = find-Found k i l d.2 t in
        ground (arith, r.found, id_of-remove_ne k q i l d.2 t ne)
  ]

  pub id_of-remove_none :
      (q : Text) (i : ℕ) (l : List (Element V)) → id_of q l ≡ none → id_of q (remove_id i l) ≡ none
  unfolding id_of remove_id
  id_of-remove_none q i [] h = refl
  id_of-remove_none q i (e ∷ l) h = ground (arith, id_of-remove_none q i l)

  pub find-remove_none :
      (j i : ℕ) (l : List (Element V)) → find_id j l ≡ none → find_id j (remove_id i l) ≡ none
  unfolding find_id remove_id
  find-remove_none j i [] h = refl
  find-remove_none j i (e ∷ l) h = ground (arith, find-remove_none j i l)

  pub remove-IsDistinct : (i : ℕ) (l : List (Element V)) → IsDistinct l → IsDistinct (remove_id i l)
  unfolding remove_id
  remove-IsDistinct i [] d = tt
  remove-IsDistinct i (e ∷ l) d = ground (
    arith,
    remove-IsDistinct i l d.2,
    id_of-remove_none e.key i l d.0,
    find-remove_none e.id i l d.1,
  )

  -- Every pointer in the list is below `n`.
  abbrev pub IsBelow : ℕ → List (Element V) → Type 0
  IsBelow n l = All (λ e. e.id < n) l

  pub remove-IsBelow : (n i : ℕ) (l : List (Element V)) → IsBelow n l → IsBelow n (remove_id i l)
  unfolding remove_id
  remove-IsBelow n i [] h = tt
  remove-IsBelow n i (e ∷ l) h = ground (arith, remove-IsBelow n i l h.1)

  pub IsBelow-suc : (n : ℕ) (l : List (Element V)) → IsBelow n l → IsBelow (n + 1) l
  IsBelow-suc n [] h = tt
  IsBelow-suc n (e ∷ l) h = (omega arith, IsBelow-suc n l h.1)

  pub find-below : (n : ℕ) (l : List (Element V)) → IsBelow n l → find_id n l ≡ none
  unfolding find_id
  find-below n [] h = refl
  find-below n (e ∷ l) h = ground (arith, find-below n l h.1)

  pub find_id_id :
      (i : ℕ) (l : List (Element V)) {e : Element V}
      → find_id i l ≡ some e
      → (n : ℕ) → IsBelow n l
      → e.id < n
  unfolding find_id
  find_id_id i [] h n b = cc
  find_id_id i (f ∷ l) {e} h n b = elim (ℕ_discrete f.id i) [
    | yes p ↦ ground arith
    | no p ↦ find_id_id i l {e = e} (ground arith) n b.1
  ]

  -- The last element is the last of the view, and its key leads to its pointer.
  pub record Last (e : Element V) (l : List (Element V)) : Type 0 where
    pub split : view l ≡ view (remove_id e.id l) ++ (e.key, e.value) ∷ []
    pub pointer : id_of e.key l ≡ some e.id
    pub target : find_id e.id l ≡ some e
    pub shorter : length l ≡ suc (length (remove_id e.id l))

  pub back-find :
      (l : List (Element V)) {e : Element V}
      → back l ≡ some e
      → (i : ℕ) → find_id i l ≡ none
      → e.id ≢ i
  unfolding back find_id
  back-find [] h i n = cc
  back-find (f ∷ []) h i n = ground arith
  back-find (f ∷ g ∷ l) h i n = back-find (g ∷ l) h i (ground arith)

  pub back-key :
      (l : List (Element V)) {e : Element V}
      → back l ≡ some e
      → (k : Text) → id_of k l ≡ none
      → k ≢ e.key
  unfolding back id_of
  back-key [] h k n = cc
  back-key (f ∷ []) h k n = ground arith
  back-key (f ∷ g ∷ l) h k n = back-key (g ∷ l) h k (ground arith)

  pub back-Last : (l : List (Element V)) {e : Element V} → IsDistinct l → back l ≡ some e → Last e l
  unfolding back id_of remove_id find_id
  back-Last [] d h = cc
  back-Last (f ∷ []) d h = record {
    split = ground arith;
    pointer = ground arith;
    target = ground arith;
    shorter = ground arith;
  }
  back-Last (f ∷ g ∷ l) {e} d h =
      let r : Last e (g ∷ l) = back-Last (g ∷ l) d.2 h in
      let i : e.id ≢ f.id = back-find (g ∷ l) h f.id d.1 in
      let k : f.key ≢ e.key = back-key (g ∷ l) h f.key d.0 in
      record {
        split = ground (arith, r.split);
        pointer = ground (arith, r.pointer);
        target = ground (arith, r.target);
        shorter = ground (arith, r.shorter);
      }

  pub back-none : (l : List (Element V)) → back l ≡ none → l ≡ []
  unfolding back
  back-none [] h = refl
  back-none (e ∷ []) h = cc
  back-none (e ∷ f ∷ l) h = cc (back-none (f ∷ l) h)
