-- ===== src/Edge/Ledger/Pairing.antt =====
-- How the ledger pairs replies with the frames that were sent.
use rvln.Prelude.{ℕ, ◌+◌, ◌≤◌, ◌<◌, ◌≡◌, none, some, arith}
use rvln.Edge.Messages.{Image, GoalSpec}
use rvln.Edge.SentFrames.Order.{insert_new, find-trim_last, find-drop_older}
use rvln.Edge.Ledger.{ObservationLedger, change_goal, record_sent, take_reply_frame}
use rvln.Edge.Ledger.Invariant.{IsValid}

-- A frame that was just recorded under the current goal gets the next ID, and a reply to that ID
-- is paired with the recorded image, if the ledger keeps at least one frame.
pub take_reply-record_sent :
    (generation f : ℕ) (image : Image) (l l' : ObservationLedger)
    → IsValid l
    → 0 < l.max_frames
    → record_sent generation image l ≡ (some f, l')
    → (f ≡ l.frame_counter + 1) × ((take_reply_frame f l').0 ≡ some image)
unfolding record_sent take_reply_frame
take_reply-record_sent generation f image l l' v pos h = ground (
  arith,
  insert_new 0 l.frame_counter (l.frame_counter + 1) image l.sent_frames (omega arith) v.ordered,
  find-trim_last 0 l.frame_counter (l.frame_counter + 1) l.max_frames image l.sent_frames
      (omega arith) pos v.ordered,
)

take_reply_again :
    (f g : ℕ) (l : ObservationLedger)
    → IsValid l
    → g ≤ f
    → (take_reply_frame g (take_reply_frame f l).1).0 ≡ none
unfolding take_reply_frame
take_reply_again f g l v h = find-drop_older 0 l.frame_counter f g l.sent_frames h v.ordered

record_sent-change_goal :
    {S : Type 0} (g : GoalSpec) (invalidate : ℕ → S → S) (s : S) (generation : ℕ) (image : Image)
    (l : ObservationLedger)
    → generation ≤ l.generation
    → record_sent generation image (change_goal g invalidate l s).0
      ≡ (none, (change_goal g invalidate l s).0)
unfolding record_sent change_goal
record_sent-change_goal g invalidate s generation image l h = ground arith

-- What is out of date is refused. A reply pairs with a frame at most once, and after it no older
-- frame can be paired. After a goal change, an observation that was prepared under an earlier goal
-- gets no ID and leaves the ledger as it was.
pub outdated_refused :
    {S : Type 0} (goal : GoalSpec) (invalidate : ℕ → S → S) (s : S) (f g generation : ℕ)
    (image : Image) (l : ObservationLedger)
    → IsValid l
    → g ≤ f
    → generation ≤ l.generation
    → ((take_reply_frame g (take_reply_frame f l).1).0 ≡ none)
      × (record_sent generation image (change_goal goal invalidate l s).0
          ≡ (none, (change_goal goal invalidate l s).0))
outdated_refused goal invalidate s f g generation image l v older old = (
  take_reply_again f g l v older,
  record_sent-change_goal goal invalidate s generation image l old,
)
