-- ===== src/Edge/Ledger.antt =====
-- src/rvln_edge/rvln_edge/observation_state.py, `ObservationLedger`: goal generations, the frame
-- IDs that were sent, and the images kept to pair with replies. The dict of sent frames is an
-- association list in insertion order.
pub mod Invariant
pub mod Pairing
use rvln.Prelude.{ℕ, ◌+◌, Bool, Option, none, some, [], ◌||◌, not, is_some, ◌==◌, if◌then◌else◌}
use rvln.Edge.Messages.{Image, GoalSpec}
use rvln.Edge.SentFrames.{SentFrames, insert, trim, find, without, drop_older}

pub record ObservationLedger : Type 0 where
  pub goal : Option GoalSpec
  pub generation : ℕ
  pub frame_counter : ℕ
  pub sent_frames : SentFrames
  pub max_frames : ℕ

abbrev pub init : ℕ → ObservationLedger
init max_frames = record {
  goal = none;
  generation = 0;
  frame_counter = 0;
  sent_frames = [];
  max_frames = max_frames;
}

abbrev pub has_goal : ObservationLedger → Bool
has_goal l = is_some l.goal

-- `invalidate` is the callback, run on its own state with the frame counter.
unfoldable pub change_goal :
    {S : Type 0} → GoalSpec → (ℕ → S → S) → ObservationLedger → S → ObservationLedger × S
change_goal g invalidate l s = (
  record l { generation = l.generation + 1; goal = some g; sent_frames = [] },
  invalidate l.frame_counter s,
)

abbrev pub snapshot_goal : ObservationLedger → Option GoalSpec × ℕ
snapshot_goal l = (l.goal, l.generation)

unfoldable pub record_sent : ℕ → Image → ObservationLedger → Option ℕ × ObservationLedger
record_sent generation image l =
    if not (generation == l.generation) || not (is_some l.goal) then (none, l) else (
      some (l.frame_counter + 1),
      record l {
        frame_counter = l.frame_counter + 1;
        sent_frames = trim l.max_frames (insert (l.frame_counter + 1) image l.sent_frames);
      },
    )

unfoldable pub take_reply_frame : ℕ → ObservationLedger → Option Image × ObservationLedger
take_reply_frame f l =
    (find f l.sent_frames, record l { sent_frames = drop_older f (without f l.sent_frames) })

unfoldable pub reset : ObservationLedger → ObservationLedger
reset l = record l { generation = l.generation + 1; goal = none; sent_frames = [] }
