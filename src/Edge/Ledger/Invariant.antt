-- ===== src/Edge/Ledger/Invariant.antt =====
-- The ledger's invariant: the sent frames are in the order of their IDs, none is above the
-- counter, and there are at most `max_frames`.
use rvln.Prelude.{
  ◌+◌, ◌==◌, ◌||◌, not, is_some, ℕ, ◌≤◌, List, [], ◌∷◌, length, arith, Bool-cases, inl, inr,
}
use rvln.Edge.Messages.{Image, GoalSpec}
use rvln.Edge.SentFrames.{insert, without}
use rvln.Edge.SentFrames.Order.{
  Increasing, insert-Increasing, trim-Increasing, length-trim-le, without-Increasing,
  drop_older-Increasing, length-without-le, length-drop_older-le,
}
use rvln.Edge.Ledger.{ObservationLedger, change_goal, record_sent, take_reply_frame, reset}

pub record IsValid (l : ObservationLedger) : Type 0 where
  pub ordered : Increasing 0 l.frame_counter l.sent_frames
  pub bounded : length l.sent_frames ≤ l.max_frames

pub data Call : Type 0 where
  change_goal_call : GoalSpec → Call
  record_sent_call : ℕ → Image → Call
  take_reply_call : ℕ → Call
  reset_call : Call

unfoldable pub step : Call → ObservationLedger → ObservationLedger
step (change_goal_call g) l = (change_goal {S = Unit {0}} g (λ f s. s) l tt).0
step (record_sent_call generation image) l = (record_sent generation image l).1
step (take_reply_call f) l = (take_reply_frame f l).1
step reset_call l = reset l

unfoldable pub run : List Call → ObservationLedger → ObservationLedger
unfolding step
run [] l = l
run (call ∷ calls) l = run calls (step call l)

record_sent-IsValid :
    (generation : ℕ) (image : Image) (l : ObservationLedger)
    → IsValid l
    → IsValid (record_sent generation image l).1
unfolding record_sent
record_sent-IsValid generation image l v =
    let n = l.frame_counter in
    let grown = insert (n + 1) image l.sent_frames in
    let order =
      insert-Increasing 0 n (n + 1) image l.sent_frames (omega arith) (omega arith) v.ordered in
    elim (Bool-cases (not (generation == l.generation) || not (is_some l.goal))) [
      | inl refused ↦ rw refused v
      | inr taken ↦ rw taken (record {
        ordered = trim-Increasing 0 (n + 1) l.max_frames grown order;
        bounded = length-trim-le l.max_frames grown;
      })
    ]

take_reply-IsValid : (f : ℕ) (l : ObservationLedger) → IsValid l → IsValid (take_reply_frame f l).1
unfolding take_reply_frame
take_reply-IsValid f l v =
    let d = without f l.sent_frames in
    record {
      ordered =
          drop_older-Increasing 0 l.frame_counter f d
            (without-Increasing 0 l.frame_counter f l.sent_frames v.ordered);
      bounded = omega (arith, length-drop_older-le f d, length-without-le f l.sent_frames);
    }

step-IsValid : (call : Call) (l : ObservationLedger) → IsValid l → IsValid (step call l)
unfolding step change_goal reset
step-IsValid (change_goal_call g) l v = record { ordered = tt; bounded = omega arith }
step-IsValid (record_sent_call generation image) l v = record_sent-IsValid generation image l v
step-IsValid (take_reply_call f) l v = take_reply-IsValid f l v
step-IsValid reset_call l v = record { ordered = tt; bounded = omega arith }

-- The invariant of a ledger holds again after any calls on it.
pub run-IsValid : (calls : List Call) (l : ObservationLedger) → IsValid l → IsValid (run calls l)
unfolding run
run-IsValid [] l v = v
run-IsValid (call ∷ calls) l v = run-IsValid calls (step call l) (step-IsValid call l v)
