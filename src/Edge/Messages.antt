-- ===== src/Edge/Messages.antt =====
-- The ROS messages that the edge reads and writes (src/rvln_msgs/msg, nav_msgs, sensor_msgs), with
-- the fields that the code uses, and numpy images.
use rvln.Prelude.{ℕ, String, Bool, List}
use rvln.Float.{Float}

-- A numpy image: its shape, whether its dtype is uint8, and its items.
pub record Image : Type 0 where
  pub shape : List ℕ
  pub uint8 : Bool
  pub items : List ℕ

pub record Quaternion : Type 0 where
  pub x : Float
  pub y : Float
  pub z : Float
  pub w : Float

pub record Pose : Type 0 where
  pub x : Float
  pub y : Float
  pub orientation : Quaternion

-- nav_msgs/Path, the time stamp left out
pub record FramePath : Type 0 where
  pub frame_id : String
  pub poses : List Pose

-- GoalSpec.msg: MODE_POSE, MODE_TEXT, MODE_IMAGE, and any other number
pub data Mode : Type 0 where
  pose text image : Mode
  unknown : ℕ → Mode

-- `raw_image` is the message's sensor image, still encoded.
pub record GoalSpec : Type 0 where
  pub mode : Mode
  pub frame_id : String
  pub goal_pose : Pose
  pub goal_text : String
  pub raw_image : List ℕ

pub record Odometry : Type 0 where
  pub robot : Pose

pub record Observation : Type 0 where
  pub frame_id : ℕ
  pub stamp_sec : ℕ
  pub stamp_nanosec : ℕ
  pub jpeg : List ℕ
  pub goal : GoalSpec

pub record ActionEmbedding : Type 0 where
  pub frame_id : ℕ
  pub num_tokens : ℕ
  pub embed_dim : ℕ
  pub embedding : List Float
  pub inference_ms : Float
  pub model_version : String
