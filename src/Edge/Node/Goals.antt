-- ===== src/Edge/Node/Goals.antt =====
-- src/rvln_edge/rvln_edge/edge_node.py: goals, and their conversion to the robot's frame.
use rvln.Prelude.{◌&&◌, Option, none, some, if◌then◌else◌, []}
use rvln.Float.{Float, Arith, zero_f, one_f, eq, neg}
use rvln.Edge.Messages.{Quaternion, Mode, GoalSpec, Odometry}
use rvln.Edge.Waypoint.{two_f}
use rvln.Edge.Adapter.{EdgeGoal, pose_goal, text_goal, image_goal}
use rvln.Edge.Node.{Platform}

-- Yaw of a quaternion; zero for the zero quaternion.
unfoldable pub quat_to_yaw : Arith → Quaternion → Float
quat_to_yaw m q =
    if eq q.x zero_f && (eq q.y zero_f && (eq q.z zero_f && eq q.w zero_f))
    then zero_f
    else m.atan2 (m.mul two_f (m.add (m.mul q.w q.z) (m.mul q.x q.y)))
        (m.sub one_f (m.mul two_f (m.add (m.mul q.y q.y) (m.mul q.z q.z))))

abbrev pub zero_quaternion : Quaternion
zero_quaternion = record { x = zero_f; y = zero_f; z = zero_f; w = one_f }

-- The fields that the source does not set keep the message's defaults.
unfoldable pub pose_goal_in_base_link : Arith → GoalSpec → Odometry → GoalSpec
unfolding quat_to_yaw
pose_goal_in_base_link m goal odom =
    let yaw = quat_to_yaw m odom.robot.orientation in
    let dx = m.sub goal.goal_pose.x odom.robot.x in
    let dy = m.sub goal.goal_pose.y odom.robot.y in
    let relative_yaw = m.sub (quat_to_yaw m goal.goal_pose.orientation) yaw in
    record {
      mode = goal.mode;
      frame_id = "base_link";
      goal_pose = record {
        x = m.add (m.mul (m.cos yaw) dx) (m.mul (m.sin yaw) dy);
        y = m.add (m.mul (neg (m.sin yaw)) dx) (m.mul (m.cos yaw) dy);
        orientation = record zero_quaternion {
          z = m.sin (m.div relative_yaw two_f);
          w = m.cos (m.div relative_yaw two_f);
        };
      };
      goal_text = "";
      raw_image = [];
    }

-- The goal for an adapter; none when the image does not decode or the mode is unknown.
unfoldable pub ros_goal_to_edge_goal : Platform → GoalSpec → Option EdgeGoal
unfolding quat_to_yaw
ros_goal_to_edge_goal w goal = elim goal.mode [
  | Mode.pose ↦ some (
      pose_goal goal.goal_pose.x goal.goal_pose.y
        (quat_to_yaw w.arith_ops goal.goal_pose.orientation))
  | Mode.text ↦ some (text_goal goal.goal_text)
  | Mode.image ↦ elim (w.imgmsg_to_cv2 goal.raw_image) [
    | none ↦ none
    | some img ↦ some (image_goal img)
  ]
  | Mode.unknown n ↦ none
]
