-- ===== src/Edge/Follower.antt =====
-- src/rvln_edge/rvln_edge/path_follower_node.py: the latch over the controller, the forced stop and
-- the log of transitions. Times are nanoseconds of the ROS clock; `now - held_at <= timeout` is
-- written `now <= held_at + timeout`.
pub mod Latch
pub mod Staleness
use rvln.Prelude.{
  ℕ, zero, ◌+◌, Bool, true, false, not, ◌&&◌, ◌||◌, String, Option, none, some, List, [], ◌∷◌, map,
  length, ltb, leb, str_eq, if◌then◌else◌, Result, ok, raise, ◌>>=◌,
}
use rvln.Float.{Float, Arith, lt, abs}
use rvln.Edge.Messages.{Pose, FramePath}
use rvln.Edge.Waypoint.{WaypointPd, TwistCmd, PathPoint, zero_cmd, compute}

pub record PathFollower : Type 0 where
  pub pp : WaypointPd
  pub expected_frame : String
  pub hold_timeout_ns : ℕ
  pub cmd_eps : Float
  pub latest : List PathPoint
  pub frame_mismatch : Bool
  pub path_new : Bool
  pub held_cmd : Option TwistCmd
  pub held_at : Option ℕ
  pub was_moving : Bool
  pub forced_stop : Bool

abbrev pub init : WaypointPd → String → ℕ → Float → PathFollower
init pp expected_frame hold_timeout_ns cmd_eps = record {
  pp = pp;
  expected_frame = expected_frame;
  hold_timeout_ns = hold_timeout_ns;
  cmd_eps = cmd_eps;
  latest = [];
  frame_mismatch = false;
  path_new = false;
  held_cmd = none;
  held_at = none;
  was_moving = false;
  forced_stop = false;
}

-- Heading is a yaw-only quaternion (w=cos, z=sin).
abbrev pub to_point : Pose → PathPoint
to_point p = record { x = p.x; y = p.y; cos = p.orientation.w; sin = p.orientation.z }

-- `msg.header.frame_id and msg.header.frame_id != self._expected_frame`
unfoldable pub mismatched : FramePath → String → Bool
mismatched msg expected = not (str_eq msg.frame_id "") && not (str_eq msg.frame_id expected)

unfoldable pub on_path : FramePath → PathFollower → PathFollower
unfolding mismatched
on_path msg s =
    if mismatched msg s.expected_frame
    then record s { path_new = true; frame_mismatch = true; latest = [] }
    else record s { path_new = true; frame_mismatch = false; latest = map to_point msg.poses }

-- The service that stops and resumes the follower; it answers with success and a message.
unfoldable pub on_forced_stop : Bool → PathFollower → (Bool × String) × PathFollower
on_forced_stop request s = (
  (true, if request then "follower stopped" else "follower resumed"),
  record s { forced_stop = request; held_cmd = none; held_at = none },
)

unfoldable pub is_moving : Float → TwistCmd → Bool
is_moving eps cmd = lt eps (abs cmd.linear) || lt eps (abs cmd.angular)

-- The held command, while it may be repeated.
unfoldable pub held : ℕ → PathFollower → Option TwistCmd
held now s = elim s.held_cmd [
  | none ↦ none
  | some cmd ↦ elim s.held_at [
    | none ↦ none
    | some at ↦
        if ltb 0 s.hold_timeout_ns && leb now (at + s.hold_timeout_ns) then some cmd else none
  ]
]

abbrev pub release : PathFollower → PathFollower
release s = record s { path_new = false; held_cmd = none; held_at = none }

-- `_decide_cmd` after the command is computed
unfoldable pub choose : ℕ → TwistCmd → PathFollower → TwistCmd × PathFollower
unfolding is_moving held
choose now cmd s =
    if s.frame_mismatch
    then (cmd, release s)
    else if is_moving s.cmd_eps cmd
    then (cmd, record s { path_new = false; held_cmd = some cmd; held_at = some now })
    else if s.path_new
    then (cmd, release s)
    else elim (held now s) [
      | none ↦ (cmd, release s)
      | some kept ↦ (kept, record s { path_new = false })
    ]

unfoldable pub decide_cmd : Arith → ℕ → PathFollower → Result (TwistCmd × PathFollower)
decide_cmd m now s = do cmd ← compute m s.pp s.latest; ok (choose now cmd s)

pub data StopReason : Type 0 where
  mismatch_reason empty_path near_zero : StopReason

pub data LogLine : Type 0 where
  resume_line : TwistCmd → ℕ → LogLine
  stop_line : StopReason → ℕ → LogLine

abbrev pub stop_reason : PathFollower → StopReason
stop_reason s =
    if s.frame_mismatch
    then mismatch_reason
    else elim s.latest [ [] ↦ empty_path | p ∷ path ↦ near_zero ]

unfoldable pub log_motion_transition : TwistCmd → PathFollower → Option LogLine × PathFollower
unfolding is_moving
log_motion_transition cmd s =
    let moving = is_moving s.cmd_eps cmd in
    if (if moving then s.was_moving else not s.was_moving) then (none, s) else (
      some (
          if moving
          then resume_line cmd (length s.latest)
          else stop_line (stop_reason s) (length s.latest)),
      record s { was_moving = moving },
    )

abbrev pub log_and_publish : TwistCmd × PathFollower → Result TwistCmd × PathFollower
log_and_publish (cmd, s) = (ok cmd, (log_motion_transition cmd s).1)

-- The Twist that is published; an exception leaves the callback and the state as it was.
unfoldable pub tick : Arith → ℕ → PathFollower → Result TwistCmd × PathFollower
unfolding decide_cmd
tick m now s =
    if s.forced_stop
    then log_and_publish (zero_cmd, s)
    else elim (decide_cmd m now s) [ ok decided ↦ log_and_publish decided | raise e ↦ (raise e, s) ]
