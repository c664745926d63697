-- ===== src/Edge/Node/Ticks.antt =====
-- src/rvln_edge/rvln_edge/edge_node.py: the timers that send observations and publish the
-- status. `now` is the monotonic clock as the callback reads it.
use rvln.Prelude.{
  ℕ, ◌+◌, ◌/◌, ◌%◌, not, ◌&&◌, ◌||◌, Option, none, some, List, [], ◌∷◌, ltb, str_eq, if◌then◌else◌,
}
use rvln.Edge.Messages.{Image, Mode, GoalSpec, Odometry, Observation}
use rvln.Edge.Cache.{Status, waiting, fine, degraded, stale, status}
use rvln.Edge.Camera.{fresh_with_stamp, has_fresh}
use rvln.Edge.Ledger.{has_goal, record_sent}
use rvln.Edge.Node.{
  Platform, Params, EdgeNode, Output, observation_out, status_out, Level, fine_level, warn_level,
  error_level,
}
use rvln.Edge.Node.Goals.{pose_goal_in_base_link}

-- How a goal is sent: as it is, made relative to the robot, or not at all.
unfoldable pub sendable : Platform → GoalSpec → Option Odometry → Option GoalSpec
sendable w goal odom = elim goal.mode [
  | Mode.pose ↦
      if str_eq goal.frame_id "odom"
      then elim odom [ none ↦ none | some o ↦ some (pose_goal_in_base_link w.arith_ops goal o) ]
      else if str_eq goal.frame_id "" || str_eq goal.frame_id "base_link"
      then some goal
      else none
  | Mode.text ↦ some goal
  | Mode.image ↦ some goal
  | Mode.unknown k ↦ some goal
]

abbrev pub observation_of : ℕ → ℕ → List ℕ → GoalSpec → Observation
observation_of frame_id capture_ns jpeg goal = record {
  frame_id = frame_id;
  stamp_sec = capture_ns / 1000000000;
  stamp_nanosec = capture_ns % 1000000000;
  jpeg = jpeg;
  goal = goal;
}

unfoldable pub status_level : Status → Level
status_level fine = fine_level
status_level degraded = warn_level
status_level waiting = warn_level
status_level stale = error_level

module _ {A : Type 0} where
  unfoldable pub fresh_odom : Params → ℕ → EdgeNode A → Option Odometry
  fresh_odom p now n = if ltb (n.odom_received_ns + p.odom_max_age) now then none else n.latest_odom

  -- The last steps of sending, once the image is encoded.
  unfoldable pub commit_sent :
      ℕ → Image → ℕ → List ℕ → GoalSpec → EdgeNode A → List Output × EdgeNode A
  commit_sent generation img capture_ns jpeg goal n =
      let (frame, observations) = record_sent generation img n.observations in
      elim frame [
        | none ↦ ([], n)
        | some f ↦ (
          observation_out (observation_of f capture_ns jpeg goal) ∷ [],
          record n { observations = observations },
        )
      ]

  unfoldable pub encode_and_send :
      Platform → Params → Image × ℕ → GoalSpec → EdgeNode A → List Output × EdgeNode A
  encode_and_send w p (img, capture_ns) goal n =
      elim (w.resize_and_jpeg img p.image_width p.image_height p.jpeg_quality) [
        | none ↦ ([], n)
        | some jpeg ↦ commit_sent n.observations.generation img capture_ns jpeg goal n
      ]

  -- The goal and its generation are read once, before the image is encoded.
  unfoldable pub send_goal :
      Platform → Params → ℕ → Image × ℕ → EdgeNode A → List Output × EdgeNode A
  send_goal w p now capture n = elim n.observations.goal [
    | none ↦ ([], n)
    | some goal ↦ elim (sendable w goal (fresh_odom p now n)) [
      | none ↦ ([], n)
      | some sent ↦ encode_and_send w p capture sent n
    ]
  ]

  unfoldable pub send_observation_tick :
      Platform → Params → ℕ → EdgeNode A → List Output × EdgeNode A
  send_observation_tick w p now n =
      if not n.observation_pub
      then ([], n)
      else elim (fresh_with_stamp p.image_max_age now n.camera_frames) [
        | none ↦ ([], n)
        | some capture ↦ send_goal w p now capture n
      ]

  unfoldable pub publish_status : Params → ℕ → EdgeNode A → List Output
  unfolding status_level
  publish_status p now n =
      if not n.status_pub
      then []
      else if n.local_mode
      then (let ready = has_fresh p.image_max_age now n.camera_frames && has_goal n.observations in
          let s = if ready then fine else waiting in
          status_out s (status_level s) n.observations.frame_counter ∷ [])
      else elim n.cache [
        | none ↦ []
        | some c ↦
            status_out (status now c) (status_level (status now c)) n.observations.frame_counter
            ∷ []
      ]
