-- ===== src/Edge/Bridge.antt =====
-- src/rvln_edge/rvln_edge/action_path_bridge.py, `ActionPathBridge`: the slot between a transport
-- thread and the ROS timer, with the watchdog. Each method holds the lock, so a method is one
-- step. Times in seconds are whole numbers of a clock unit; `now - last_rx > max_age` is written
-- `last_rx + max_age < now`.
pub mod Watchdog
pub mod Freshness
use rvln.Prelude.{
  ℕ, ◌+◌, Bool, true, false, not, ◌&&◌, String, Option, none, some, [], ltb, str_eq, if◌then◌else◌,
}
use rvln.Edge.Messages.{FramePath}

pub record ActionPathBridge : Type 0 where
  pub frame_id : String
  pub max_age : ℕ
  pub pending : Option FramePath
  pub last_rx : Option ℕ
  pub goal_id : String
  pub stopped : Bool

abbrev pub init : String → ℕ → ActionPathBridge
init frame_id max_age = record {
  frame_id = frame_id;
  max_age = max_age;
  pending = none;
  last_rx = none;
  goal_id = "";
  stopped = true;
}

abbrev pub following : ActionPathBridge → Bool
following b = not b.stopped

-- The previous goal ID, if it changed.
unfoldable pub receive :
    FramePath → String → ℕ → ActionPathBridge → Option String × ActionPathBridge
receive path goal_id now b = (
  if not (str_eq goal_id b.goal_id) then some b.goal_id else none,
  record b { goal_id = goal_id; pending = some path; last_rx = some now; stopped = false },
)

-- The test of the watchdog.
unfoldable pub expired : ℕ → ActionPathBridge → Bool
expired now b = elim b.last_rx [ none ↦ false | some t ↦ not b.stopped && ltb (t + b.max_age) now ]

abbrev pub stop_path : ActionPathBridge → FramePath
stop_path b = record { frame_id = b.frame_id; poses = [] }

-- The path to publish, and whether the input timed out.
unfoldable pub tick : ℕ → ActionPathBridge → (Option FramePath × Bool) × ActionPathBridge
unfolding expired
tick now b =
    if expired now b
    then ((some (stop_path b), true), record b { stopped = true; pending = none })
    else elim b.pending [
      | none ↦ ((none, false), b)
      | some path ↦ ((some path, false), record b { pending = none })
    ]
