-- ===== src/Edge/Capture.antt =====
-- src/rvln_edge/rvln_edge/camera_capture.py: the thread that owns the camera, one round of its loop
-- at a time. The device's answers are arguments: whether it opens, and what a read gives.
pub mod Closing
use rvln.Prelude.{ℕ, Bool, true, false, Option, none, some, ◌||◌, not, if◌then◌else◌}
use rvln.Edge.Messages.{Image}
use rvln.Edge.Camera.{CameraFrameStore, put, clear}

pub record V4l2CameraCapture : Type 0 where
  pub frames : CameraFrameStore
  pub cap : Bool
  pub thread : Bool
  pub stop_set : Bool

abbrev pub init : CameraFrameStore → V4l2CameraCapture
init frames = record { frames = frames; cap = false; thread = false; stop_set = false }

unfoldable pub open_device : Bool → V4l2CameraCapture → Bool × V4l2CameraCapture
open_device opens s = if opens then (true, record s { cap = true }) else (false, s)

unfoldable pub start : V4l2CameraCapture → V4l2CameraCapture
start s = if not s.cap then s else record s { stop_set = false; thread = true }

unfoldable pub stop : V4l2CameraCapture → V4l2CameraCapture
stop s = if s.thread then record s { stop_set = true; thread = false } else s

unfoldable pub close : V4l2CameraCapture → V4l2CameraCapture
unfolding stop
close s = let stopped = stop s in record stopped { cap = false; frames = clear stopped.frames }

-- The head of a round: it goes on to read unless the flag is set or the device is gone.
unfoldable pub reads : V4l2CameraCapture → Bool
reads s = not (s.stop_set || not s.cap)

-- The rest of the round, once the read gives a frame or fails, and whether there is a next round.
unfoldable pub after_read : Option Image → ℕ → V4l2CameraCapture → Bool × V4l2CameraCapture
after_read read now s = if s.stop_set then (false, s) else elim read [
  | none ↦ (true, s)
  | some rgb ↦ (true, record s { frames = put rgb none 0 now s.frames })
]
