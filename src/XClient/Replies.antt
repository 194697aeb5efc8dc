-- ===== src/XClient/Replies.antt =====
-- SuRPC/xclient/xclient.go: a `Broadcast` without an error has a reply.
use golang_frame_practice.Client.{Client}
use golang_frame_practice.Client.Dial.{Options, Dialled}
use golang_frame_practice.Common.Outcome.{Outcome}
use golang_frame_practice.Common.{
  ℕ, ◌≡◌, ◌≢◌, sym, ◌∙◌, ◌⊎◌, inl, inr, true, Option, some, List, [], ◌∷◌, ◌++◌, Text, arith, All,
  Bool-cases,
}
use golang_frame_practice.XClient.Broadcasts.{
  Task, calling, over, Cast, started, Step, connects, fails, replies, errs, elsewhere, Reach, here,
  later,
}
use golang_frame_practice.XClient.Errors.{IsOver, IsBlamed, merge_error-IsBlamed}
use golang_frame_practice.XClient.{XClient, Merged, unmerged, merge_error, merge_reply}

-- A reply has been copied to the caller's.
abbrev pub IsReplied : {R : Type 0} → Merged R → Type 0
IsReplied {R} m = (b : R) × (m.reply ≡ some b)

-- A goroutine that has not ended.
abbrev IsActive : Task → Type 0
IsActive t = (a : Text) → t ≢ over a

abbrev Active : List Task → Type 0
Active [] = ⊥
Active (t ∷ tasks) = IsActive t ⊎ Active tasks

Active-mid : (l r : List Task) (t : Task) → IsActive t → Active (l ++ t ∷ r)
Active-mid [] r t h = inl h
Active-mid (s ∷ l) r t h = inr (Active-mid l r t h)

Active-over : (tasks : List Task) → All IsOver tasks → Active tasks → ⊥
Active-over [] h q = q
Active-over (t ∷ tasks) ((a, e), h) (inl q) = q a e
Active-over (t ∷ tasks) (o, h) (inr q) = Active-over tasks h q

module _ {R : Type 0} (m : Merged R) where
  merge_error-reply :
      (e : Text)
      → ((merge_error e m).reply_done ≡ m.reply_done) × ((merge_error e m).reply ≡ m.reply)
  unfolding merge_error
  merge_error-reply e = ground arith

  merge_reply-IsReplied :
      (b : R) → (m.reply_done ≡ true → IsReplied m) → IsReplied (merge_reply b m)
  unfolding merge_reply
  merge_reply-IsReplied b h = elim (Bool-cases m.reply_done) [
    | inl e ↦ let (c, q) = h e in (c, ground (arith, e, q))
    | inr e ↦ (b, ground (arith, e))
  ]

-- A reply that is wanted is set once the flag is, and someone still runs, or has left an error or a
-- reply.
record Fair {A B R : Type 0} (s : Cast A B R) : Type 0 where
  flagged : s.merged.reply_done ≡ true → IsReplied s.merged
  fate : Active s.tasks ⊎ (IsBlamed s.merged ⊎ IsReplied s.merged)

module _ {A B R : Type 0} (errorf : Text → Text) (closed : ℕ → Outcome (Unit {0}))
    (connect : Option Options → Dialled → Outcome (Client A B)) where
  flagged_error :
      (e : Text) (m : Merged R)
      → (m.reply_done ≡ true → IsReplied m)
      → (merge_error e m).reply_done ≡ true
      → IsReplied (merge_error e m)
  flagged_error e m h q =
      let (d, r) = merge_error-reply m e in let (b, p) = h (sym d ∙ q) in (b, r ∙ p)

  Step-Fair : {s t : Cast A B R} → Step errorf closed connect s t → Fair s → Fair t
  Step-Fair (connects x x' m l r addr c q) h = record {
    flagged = h.flagged;
    fate = inl (Active-mid l r (calling addr c) (λ a e. cc));
  }
  Step-Fair (fails x x' m l r addr e q) h = record {
    flagged = flagged_error e m h.flagged;
    fate = inr (inl (merge_error-IsBlamed m e));
  }
  Step-Fair (replies x m l r addr c b) h = record {
    flagged = λ q. merge_reply-IsReplied m b h.flagged;
    fate = inr (inr (merge_reply-IsReplied m b h.flagged));
  }
  Step-Fair (errs x m l r addr c e) h = record {
    flagged = flagged_error e m h.flagged;
    fate = inr (inl (merge_error-IsBlamed m e));
  }
  Step-Fair (elsewhere x m tasks event) h = record { flagged = h.flagged; fate = h.fate }

  Reach-Fair : {s t : Cast A B R} → Reach errorf closed connect s t → Fair s → Fair t
  Reach-Fair here h = h
  Reach-Fair (later r st) h = Step-Fair st (Reach-Fair r h)

  start-Fair :
      (x : XClient A B) (a : Text) (servers : List Text)
      → Fair {R = R} (started x true (a ∷ servers))
  unfolding unmerged
  start-Fair x a servers = record { flagged = λ e. cc; fate = inl (inl (λ b e. cc)) }

  -- With one server at least and a reply that is not nil, in every state that is reached in which all
  -- goroutines are over, `Broadcast` returns an error or has set the reply.
  pub Reach-IsReplied :
      (x : XClient A B) (a : Text) (servers : List Text) (s : Cast A B R)
      → Reach errorf closed connect (started x true (a ∷ servers)) s
      → All IsOver s.tasks
      → IsBlamed s.merged ⊎ IsReplied s.merged
  Reach-IsReplied x a servers s path done = elim (Reach-Fair path (start-Fair x a servers)).fate [
    | inl q ↦ absurd (Active-over s.tasks done q)
    | inr q ↦ q
  ]
