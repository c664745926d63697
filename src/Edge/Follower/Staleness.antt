-- ===== src/Edge/Follower/Staleness.antt =====
-- What the follower publishes after the last path.
use rvln.Prelude.{Bool, false, List, [], ◌∷◌, map, String, if◌then◌else◌, Result, ok}
use rvln.Float.{Float, Arith}
use rvln.Edge.Messages.{FramePath}
use rvln.Edge.Waypoint.{WaypointPd, TwistCmd, zero_cmd, compute}
use rvln.Edge.Follower.{to_point, mismatched}
use rvln.Edge.Follower.Latch.{Event, path_event, stop_event, tick_event}

-- The last request to stop or to go on; at the start there is none, and the robot may move.
unfoldable pub last_request : Bool → List Event → Bool
last_request stop [] = stop
last_request stop (stop_event request ∷ events) = last_request request events
last_request stop (path_event msg ∷ events) = last_request stop events
last_request stop (tick_event now ∷ events) = last_request stop events

-- The command for a path, in the frame that the follower expects.
abbrev pub command_for : Arith → WaypointPd → String → List Event → FramePath → Result TwistCmd
command_for m pp frame events msg =
    if last_request false events
    then ok zero_cmd
    else compute m pp (if mismatched msg frame then [] else map to_point msg.poses)
