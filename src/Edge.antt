-- ===== src/Edge.antt =====
-- The ROS edge package.
pub mod Messages
pub mod SentFrames
pub mod Cache
pub mod Camera
pub mod Ledger
pub mod Fp16
pub mod Trajectory
pub mod Bridge
pub mod ActionGrpc
pub mod Json
pub mod ActionWs
pub mod Waypoint
pub mod Pursuit
pub mod Preprocess
pub mod Capture
pub mod Follower
pub mod Adapter
pub mod Node
