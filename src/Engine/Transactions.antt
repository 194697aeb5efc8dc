-- ===== src/Engine/Transactions.antt =====
-- SORM/sorm.go: how a transaction ends.
use golang_frame_practice.Common.Outcome.{Outcome, ok, err, panics, hangs, exits}
use golang_frame_practice.Common.{ℕ, Text, ◌≡◌, refl, ap, ◌∙◌, true, arith}
use golang_frame_practice.Engine.{undo, finish, transaction}
use golang_frame_practice.Session.{
  Database, Session, Action, after, ◌>>=◌, new_session, begin, exec, clear,
}

-- An error or a panic.
abbrev pub IsFailure : {A : Type 0} → Outcome A → Type 0
IsFailure (ok a) = ⊥
IsFailure (err e) = Unit
IsFailure (panics e) = Unit
IsFailure hangs = ⊥
IsFailure (exits msg) = ⊥

-- The session that `Begin` leaves.
abbrev pub begun : {D : Type 0} → D → D → Session D
begun d d1 = record (new_session d) { db = d1; tx = true }

module _ {D Row : Type 0} (db : Database D Row) where
  begin-begun :
      (d d1 : D) → db.begin_tx d ≡ (d1, ok tt) → begin db (new_session d) ≡ (begun d d1, ok tt)
  unfolding begin new_session
  begin-begun d d1 e = ground (arith, e)

  exec-fatal :
      (s : Session D) (d : D) (x : Text)
      → db.exec s.tx s.sql s.sql_vars s.db ≡ (d, err x)
      → exec db s ≡ (clear (record s { db = d }), exits x)
  unfolding exec
  exec-fatal s d x e = ground (arith, e)

module _ {D Row : Type 0} {A : Type 0} (db : Database D Row) where
  pub transaction-begun :
      (fs : Action D A) (d d1 : D)
      → db.begin_tx d ≡ (d1, ok tt)
      → transaction db fs d ≡ finish db (fs (begun d d1))
  unfolding transaction
  transaction-begun fs d d1 e = ap (λ r. after r (λ _ s. finish db (fs s))) (begin-begun db d d1 e)

  undone :
      (o : Outcome A) (s : Session D) (d : D)
      → db.rollback_tx s.db ≡ (d, ok tt)
      → undo db o s ≡ (record s { db = d }, o)
  unfolding undo
  undone o s d e = ground (arith, e)

  finish_failed : (s : Session D) (o : Outcome A) → IsFailure o → finish db (s, o) ≡ undo db o s
  unfolding finish
  finish_failed s (ok a) f = absurd f
  finish_failed s (err e) f = refl
  finish_failed s (panics e) f = refl
  finish_failed s hangs f = absurd f
  finish_failed s (exits e) f = absurd f

  -- If the database begins a transaction, the function fails with an error or a panic, and a rollback
  -- from the state that it leaves gives the first state back, then `Transaction` fails in the same way
  -- and the database is in its first state.
  pub transaction-undone :
      (fs : Action D A) (d d1 : D)
      → db.begin_tx d ≡ (d1, ok tt)
      → IsFailure (fs (begun d d1)).1
      → db.rollback_tx (fs (begun d d1)).0.db ≡ (d, ok tt)
      → ((transaction db fs d).1 ≡ (fs (begun d d1)).1) × ((transaction db fs d).0.db ≡ d)
  transaction-undone fs d d1 e f back =
      let r = fs (begun d d1) in
      let p = transaction-begun fs d d1 e ∙ finish_failed r.0 r.1 f ∙ undone r.1 r.0 d back in
      (ap (λ q. q.1) p, ap (λ q. q.0.db) p)

  -- If the database begins a transaction, the function runs some steps and then a statement that the
  -- database refuses, then the program ends, and there is no rollback: the database is left as the
  -- refused statement leaves it.
  pub transaction-fatal :
      (before : Action D (Unit {0})) (rest : Outcome ℕ → Action D A) (s : Session D) (d d1 d2 : D)
      (x : Text)
      → db.begin_tx d ≡ (d1, ok tt)
      → before (begun d d1) ≡ (s, ok tt)
      → db.exec s.tx s.sql s.sql_vars s.db ≡ (d2, err x)
      → ((transaction db (before >>= λ _. exec db >>= rest) d).1 ≡ exits x)
        × ((transaction db (before >>= λ _. exec db >>= rest) d).0.db ≡ d2)
  unfolding finish clear
  transaction-fatal before rest s d d1 d2 x e b f =
      let fs : Action D A = before >>= λ _. exec db >>= rest in
      let p : fs (begun d d1) ≡ (clear (record s { db = d2 }), exits x) =
        ap (λ r. after r (λ _. exec db >>= rest)) b
        ∙ ap (λ r. after r rest) (exec-fatal db s d2 x f) in
      let q = transaction-begun fs d d1 e ∙ ap (finish db) p in
      (ap (λ r. r.1) q, ap (λ r. r.0.db) q)
