-- ===== src/Discovery/RoundRobin.antt =====
-- SuRPC/xclient/discovery.go: round robin is fair.
use mathlib.Core.List.{append_assoc, map-append}
use native.Mathlib.Nat.{mod-mod, mod-add-mod, mod-eq_of_lt, mod_self}
use golang_frame_practice.Common.Outcome.{Outcome, ok}
use golang_frame_practice.Common.{
  ℕ, zero, suc, ◌+◌, ◌%◌, ◌<◌, ◌≡◌, refl, sym, ap, ◌∙◌, some, List, [], ◌∷◌, ◌++◌, map, length,
  get_elem?, length-append, Text, arith,
}
use golang_frame_practice.Discovery.{MultiServerDiscovery, round_robin_select, server_at, get}

-- The answers of `n` calls of `Get` in round robin.
unfoldable pub rounds : (ℕ → ℕ) → ℕ → MultiServerDiscovery → List (Outcome Text)
rounds intn zero m = []
rounds intn (suc n) m = let (m', r) = get intn m round_robin_select in r ∷ rounds intn n m'

get_elem?-append :
    (pre post : List Text) (s : Text) → get_elem? (pre ++ (s ∷ post)) (length pre) ≡ some s
get_elem?-append [] post s = refl
get_elem?-append (x ∷ pre) post s = get_elem?-append pre post s

abbrev at : List Text → ℕ → MultiServerDiscovery
at servers i = record { servers = servers; index = i }

get_round :
    (intn : ℕ → ℕ) (l : List Text) (s : Text) (i : ℕ)
    → 0 < length l
    → get_elem? l (i % length l) ≡ some s
    → get intn (at l i) round_robin_select ≡ (at l ((i + 1) % length l), ok s)
unfolding get server_at
get_round intn l s i n e = ground arith

next_index : (i n p : ℕ) → i % n ≡ p → p + 1 < n → (i + 1) % n % n ≡ p + 1
next_index i n p e h = mod-mod (i + 1) n ∙ sym (mod-add-mod i n 1) ∙ rw e (mod-eq_of_lt h)

last_index : (i n p : ℕ) → i % n ≡ p → p + 1 ≡ n → (i + 1) % n % n ≡ 0
last_index i n p e h = mod-mod (i + 1) n ∙ sym (mod-add-mod i n 1) ∙ rw e (rw h (mod_self n))

-- From the server `s` on, the calls walk to the end of the list, and then start again.
record Walks (intn : ℕ → ℕ) (l : List Text) (i n k : ℕ) (post : List Text) : Type 0 where
  next : ℕ
  start : next % length l ≡ 0
  answers : rounds intn n (at l i) ≡ map ok post ++ rounds intn k (at l next)

rounds-Walks :
    (intn : ℕ → ℕ) (l pre post : List Text) (s : Text) (i n k : ℕ)
    → l ≡ pre ++ (s ∷ post)
    → i % length l ≡ length pre
    → n ≡ suc (length post + k)
    → Walks intn l i n k (s ∷ post)
unfolding rounds
rounds-Walks intn l pre post s i zero k e r c = absurd (omega arith)
rounds-Walks intn l pre [] s i (suc n) k e r c =
    let len : length l ≡ length pre + 1 = rw e (length-append pre (s ∷ [])) in
    let here : get_elem? l (i % length l) ≡ some s = rw (r, e) (get_elem?-append pre [] s) in
    let step = get_round intn l s i (omega arith) here in
    let count : n ≡ k = omega arith in
    record {
      next = (i + 1) % length l;
      start = last_index i (length l) (length pre) r (omega arith);
      answers = rw (step, count);
    }
rounds-Walks intn l pre (t ∷ post) s i (suc n) k e r c =
    let len : length l ≡ length pre + length (s ∷ t ∷ post) =
      rw e (length-append pre (s ∷ t ∷ post)) in
    let here : get_elem? l (i % length l) ≡ some s =
      rw (r, e) (get_elem?-append pre (t ∷ post) s) in
    let step = get_round intn l s i (omega arith) here in
    let w =
      rounds-Walks intn l (pre ++ (s ∷ [])) post t ((i + 1) % length l) n k
        (e ∙ sym (append_assoc pre (s ∷ []) (t ∷ post)))
        (next_index i (length l) (length pre) r (omega arith) ∙ sym (length-append pre (s ∷ [])))
        (omega arith) in
    record { next = w.next; start = w.start; answers = rw step (ap (◌∷◌ (ok s)) w.answers) }

rounds-part :
    (intn : ℕ → ℕ) (l a b c : List Text) (i : ℕ)
    → l ≡ a ++ (b ++ c)
    → i % length l ≡ length a
    → rounds intn (length b) (at l i) ≡ map ok b
unfolding rounds
rounds-part intn l a [] c i e r = refl
rounds-part intn l a (s ∷ []) c i e r =
    let len : length l ≡ length a + suc (length c) = rw e (length-append a (s ∷ c)) in
    rw (get_round intn l s i (omega arith) (rw (r, e) (get_elem?-append a c s)))
rounds-part intn l a (s ∷ t ∷ b) c i e r =
    let len : length l ≡ length a + suc (suc (length (b ++ c))) =
      rw e (length-append a (s ∷ t ∷ b ++ c)) in
    let here : get_elem? l (i % length l) ≡ some s =
      rw (r, e) (get_elem?-append a (t ∷ b ++ c) s) in
    rw (get_round intn l s i (omega arith) here) (
      ap (◌∷◌ (ok s)) (
        rounds-part intn l (a ++ (s ∷ [])) (t ∷ b) c ((i + 1) % length l)
          (e ∙ sym (append_assoc a (s ∷ []) (t ∷ b ++ c)))
          (next_index i (length l) (length a) r (omega arith) ∙ sym (length-append a (s ∷ [])))))

-- When the position is at `s` modulo the length of the list, as many calls of round robin as there are
-- servers return each server once, in the order of the list from `s` on and then from its start.
pub rounds-rotate :
    (intn : ℕ → ℕ) (pre post : List Text) (s : Text) (i : ℕ)
    → i % length (pre ++ (s ∷ post)) ≡ length pre
    → rounds intn (length (pre ++ (s ∷ post))) (record { servers = pre ++ (s ∷ post); index = i })
      ≡ map ok ((s ∷ post) ++ pre)
rounds-rotate intn pre post s i r =
    let l = pre ++ (s ∷ post) in
    let w : Walks intn l i (length l) (length pre) (s ∷ post) =
      rounds-Walks intn l pre post s i (length l) (length pre) refl r
        (omega (arith, length-append pre (s ∷ post))) in
    w.answers
    ∙ ap (◌++◌ (map ok (s ∷ post))) (rounds-part intn l [] pre (s ∷ post) w.next refl w.start)
    ∙ sym (map-append ok (s ∷ post) pre)
