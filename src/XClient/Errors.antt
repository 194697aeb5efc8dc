-- ===== src/XClient/Errors.antt =====
-- SuRPC/xclient/xclient.go: a server that cannot be dialled makes `Broadcast` fail.
use mathlib.Core.Path.{subst}
use golang_frame_practice.Client.{Client}
use golang_frame_practice.Client.Dial.{Options, Dialled, x_dial}
use golang_frame_practice.Common.Outcome.{Outcome, ok, err}
use golang_frame_practice.Common.Strings.{split}
use golang_frame_practice.Common.{
  ℕ, ◌+◌, ◌≤◌, ◌≡◌, ◌≢◌, refl, ap, ◌∙◌, ◌⊎◌, inl, inr, Bool, Option, some, List, [], ◌∷◌, ◌++◌, map,
  Text, text, arith, All, Option-cases,
}
use golang_frame_practice.Discovery.Refresh.{su_get_all-empty}
use golang_frame_practice.Discovery.{SuRegistryDiscovery, su_get_all}
use golang_frame_practice.XClient.Broadcasts.{
  Task, starting, calling, over, Cast, started, Step, connects, fails, replies, errs, elsewhere,
  Reach, here, later,
}
use golang_frame_practice.XClient.Cache.{IsValid}
use golang_frame_practice.XClient.Dials.{dial-IsValid, dial-err}
use golang_frame_practice.XClient.Run.{happen-IsValid}
use golang_frame_practice.XClient.{XClient, Merged, merge_error, merge_reply}

-- A goroutine of the address has yet to dial.
abbrev Holds : Text → List Task → Type 0
Holds a [] = ⊥
Holds a (t ∷ tasks) = (t ≡ starting a) ⊎ Holds a tasks

-- A goroutine that has ended, and an error that has been kept.
abbrev pub IsOver : Task → Type 0
IsOver t = (a : Text) × (t ≡ over a)

abbrev pub IsBlamed : {R : Type 0} → Merged R → Type 0
IsBlamed m = (e : Text) × (m.error ≡ some e)

Holds-map : (a : Text) (l r : List Text) → Holds a (map starting (l ++ a ∷ r))
Holds-map a [] r = inl refl
Holds-map a (b ∷ l) r = inr (Holds-map a l r)

Holds-replace :
    (a : Text) (l r : List Task) (t u : Task)
    → t ≢ starting a
    → Holds a (l ++ t ∷ r)
    → Holds a (l ++ u ∷ r)
Holds-replace a [] r t u n (inl e) = absurd (n e)
Holds-replace a [] r t u n (inr h) = inr h
Holds-replace a (s ∷ l) r t u n (inl e) = inl e
Holds-replace a (s ∷ l) r t u n (inr h) = inr (Holds-replace a l r t u n h)

Holds-over : (a : Text) (tasks : List Task) → All IsOver tasks → Holds a tasks → ⊥
Holds-over a [] h q = q
Holds-over a (t ∷ tasks) ((b, e), h) (inl q) = ground (arith, e, q)
Holds-over a (t ∷ tasks) (o, h) (inr q) = Holds-over a tasks h q

module _ {R : Type 0} (m : Merged R) where
  pub merge_error-IsBlamed : (e : Text) → IsBlamed (merge_error e m)
  unfolding merge_error
  merge_error-IsBlamed e = elim (Option-cases m.error) [
    | inl q ↦ (e, ground (arith, q))
    | inr (f, q) ↦ (f, ground (arith, q))
  ]

  pub merge_reply-IsBlamed : (b : R) → IsBlamed m → IsBlamed (merge_reply b m)
  unfolding merge_reply
  merge_reply-IsBlamed b (e, q) = (e, ground (arith, q))

-- What holds for an address that cannot be parsed: it is dialled later, or an error has been kept.
record Doomed {A B R : Type 0} (a : Text) (s : Cast A B R) : Type 0 where
  valid : IsValid s.x_client
  fate : Holds a s.tasks ⊎ IsBlamed s.merged

module _ {A B R : Type 0} (errorf : Text → Text) (closed : ℕ → Outcome (Unit {0}))
    (connect : Option Options → Dialled → Outcome (Client A B)) (a e : Text)
    (bad : x_dial a ≡ err e) where
  Step-Doomed : {s t : Cast A B R} → Step errorf closed connect s t → Doomed a s → Doomed a t
  Step-Doomed (connects x x' m l r addr c q) h = record {
    valid = rw (← ap (λ p. p.0) q) (dial-IsValid closed connect addr x h.valid);
    fate = elim h.fate [
      | inr b ↦ inr b
      | inl p ↦ inl (
          Holds-replace a l r (starting addr) (calling addr c)
            (λ same.
              let p : addr ≡ a = cc in
              ground (arith, q, dial-err closed connect addr e x (ap x_dial p ∙ bad) h.valid))
            p)
    ];
  }
  Step-Doomed (fails x x' m l r addr m' q) h = record {
    valid = rw (← ap (λ p. p.0) q) (dial-IsValid closed connect addr x h.valid);
    fate = inr (merge_error-IsBlamed m m');
  }
  Step-Doomed (replies x m l r addr c b) h = record {
    valid = h.valid;
    fate = elim h.fate [
      | inr q ↦ inr (merge_reply-IsBlamed m b q)
      | inl p ↦ inl (Holds-replace a l r (calling addr c) (over addr) (λ same. cc) p)
    ];
  }
  Step-Doomed (errs x m l r addr c m') h = record {
    valid = h.valid;
    fate = inr (merge_error-IsBlamed m m');
  }
  Step-Doomed (elsewhere x m tasks event) h = record {
    valid = happen-IsValid errorf closed connect event x h.valid;
    fate = h.fate;
  }

  Reach-Doomed : {s t : Cast A B R} → Reach errorf closed connect s t → Doomed a s → Doomed a t
  Reach-Doomed here h = h
  Reach-Doomed (later r st) h = Step-Doomed st (Reach-Doomed r h)

  -- If a server in the list has an address that cannot be parsed, then from a valid XClient, whatever
  -- else happens and in whatever order the goroutines run, once all of them are over `Broadcast` has an
  -- error, even if every other server has replied.
  pub Reach-IsBlamed :
      (x : XClient A B) (wanted : Bool) (l r : List Text) (s : Cast A B R)
      → IsValid x
      → Reach errorf closed connect (started x wanted (l ++ a ∷ r)) s
      → All IsOver s.tasks
      → IsBlamed s.merged
  Reach-IsBlamed x wanted l r s v path done =
      let h : Doomed a s = Reach-Doomed path (record { valid = v; fate = inl (Holds-map a l r) }) in
      elim h.fate [ inl q ↦ absurd (Holds-over a s.tasks done q) | inr q ↦ q ]

x_dial-err : x_dial [] ≡ err (text "rpc client err: wrong format '', expected protocol@addr")
unfolding x_dial split
x_dial-err = refl

with_registry-IsValid :
    {A B : Type 0} (d : SuRegistryDiscovery) (x : XClient A B)
    → IsValid x
    → IsValid (record x { d = d })
with_registry-IsValid d x v = record {
  distinct = v.distinct;
  made = v.made;
  own = v.own;
  parsed = v.parsed;
  shut = v.shut;
}

module _ {A B R : Type 0} (errorf : Text → Text) (closed : ℕ → Outcome (Unit {0}))
    (connect : Option Options → Dialled → Outcome (Client A B))
    (http_get : Text → Outcome Text) where
  -- If the list of servers has expired and the registry answers with a header, then `Broadcast` from a
  -- valid XClient, over the servers that `GetAll` gives, has an error in every state that it reaches in
  -- which all goroutines are over.
  pub refresh-IsBlamed :
      (x : XClient A B) (now : ℕ) (header : Text) (wanted : Bool) (servers : List Text)
      (s : Cast A B R)
      → x.d.last_update + x.d.timeout ≤ now
      → http_get x.d.registry ≡ ok header
      → IsValid x
      → (su_get_all http_get now x.d).1 ≡ ok servers
      → Reach errorf closed connect
          (started (record x { d = (su_get_all http_get now x.d).0 }) wanted servers)
          s
      → All IsOver s.tasks
      → IsBlamed s.merged
  refresh-IsBlamed x now header wanted servers s expired e v g path done =
      let d : SuRegistryDiscovery = (su_get_all http_get now x.d).0 in
      let (l, q) = su_get_all-empty http_get now x.d header expired e in
      let same : servers ≡ [] ∷ l = ground (arith, q, g) in
      Reach-IsBlamed errorf closed connect [] _ x_dial-err (record x { d = d }) wanted [] l s
        (with_registry-IsValid d x v)
        (subst (λ z. Reach errorf closed connect (started (record x { d = d }) wanted z) s) same
          path)
        done
