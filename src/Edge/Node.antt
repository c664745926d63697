-- ===== src/Edge/Node.antt =====
-- src/rvln_edge/rvln_edge/edge_node.py: the state of `VLAEdgeNode`, its parameters, and what it
-- reads of OpenCV and cv_bridge. Publishers, subscriptions and timers are flags that say whether
-- the attribute holds one; `embedding_subs` counts the subscriptions to the remote topic that
-- exist. The children hold the callbacks, the timers and the lifecycle.
pub mod Goals
pub mod Callbacks
pub mod Ticks
pub mod Action
pub mod Lifecycle
pub mod Events
pub mod Sends
pub mod Quiet
pub mod Guard
pub mod Correlation
pub mod Races
pub mod Cycle
use rvln.Prelude.{ℕ, Bool, false, String, Option, none, List}
use rvln.Float.{Float, Arith}
use rvln.Edge.Messages.{Image, FramePath, Odometry, Observation, ActionEmbedding}
use rvln.Edge.Cache.{EmbeddingCache, Status}
use rvln.Edge.Camera.{CameraFrameStore}
use rvln.Edge.Camera as Camera
use rvln.Edge.Ledger.{ObservationLedger}
use rvln.Edge.Ledger as Ledger

-- The ROS parameters that the modelled code reads, durations in nanoseconds.
pub record Params : Type 0 where
  pub image_max_age : ℕ
  pub odom_max_age : ℕ
  pub embedding_max_age : ℕ
  pub embedding_hard_timeout : ℕ
  pub image_width : ℕ
  pub image_height : ℕ
  pub jpeg_quality : ℕ
  pub camera_device : String
  pub publish_embedding_debug : Bool

-- Arithmetic, and the image libraries: `none` is an exception or a failed decode.
pub record Platform : Type 0 where
  pub arith_ops : Arith
  pub imgmsg_to_cv2 : List ℕ → Option Image
  pub imdecode : List ℕ → Option Image
  pub resize_and_jpeg : Image → ℕ → ℕ → ℕ → Option (List ℕ)

pub record EdgeNode (A : Type 0) : Type 0 where
  pub camera_frames : CameraFrameStore
  pub observations : ObservationLedger
  pub last_diag_log_ns : ℕ
  pub cache : Option EmbeddingCache
  pub adapter : Option A
  pub local_mode : Bool
  pub observation_pub : Bool
  pub remote_embedding_sub : Bool
  pub embedding_subs : ℕ
  pub image_sub : Bool
  pub goal_sub : Bool
  pub odom_sub : Bool
  pub path_pub : Bool
  pub status_pub : Bool
  pub embedding_pub : Bool
  pub send_timer : Bool
  pub action_timer : Bool
  pub status_timer : Bool
  pub camera_open : Bool
  pub latest_odom : Option Odometry
  pub odom_received_ns : ℕ

abbrev pub init : {A : Type 0} → EdgeNode A
init = record {
  camera_frames = Camera.init;
  observations = Ledger.init 8;
  last_diag_log_ns = 0;
  cache = none;
  adapter = none;
  local_mode = false;
  observation_pub = false;
  remote_embedding_sub = false;
  embedding_subs = 0;
  image_sub = false;
  goal_sub = false;
  odom_sub = false;
  path_pub = false;
  status_pub = false;
  embedding_pub = false;
  send_timer = false;
  action_timer = false;
  status_timer = false;
  camera_open = false;
  latest_odom = none;
  odom_received_ns = 0;
}

-- DiagnosticStatus levels
pub data Level : Type 0 where
  fine_level warn_level error_level : Level

-- What the node publishes.
pub data Output : Type 0 where
  path_out : FramePath → Output
  observation_out : Observation → Output
  embedding_out : ActionEmbedding → Output
  status_out : Status → Level → ℕ → Output
