-- ===== src/Tests/Follower.antt =====
-- The path follower and its controller on concrete inputs.
use rvln.Prelude.{ℕ, ◌≡◌, refl, true, false, List, [], ◌∷◌, ok}
use rvln.Float.{Float, zero_f, one_f, lt, le, eq, is_finite, is_nan, py_div}
use rvln.Edge.Messages.{Pose, FramePath}
use rvln.Edge.Waypoint.{
  WaypointPd, TwistCmd, PathPoint, compute, drive, limit, limit_slow, limit_fast, steer,
  target_index,
}
use rvln.Edge.Waypoint.Arc.{IsUsable, Within}
use rvln.Edge.Waypoint.Limits.{compute-Within}
use rvln.Edge.Follower.{init, to_point, mismatched}
use rvln.Edge.Follower.Latch.{
  Event, path_event, stop_event, tick_event, run, plain_run, forget, run-plain,
}
use rvln.Tests.Platform.{platform, platform-Rounds, nan_f, times, over}

program : Unit {0}
unfolding compute drive limit limit_slow limit_fast steer target_index py_div lt le eq times over
    mismatched is_finite is_nan
program = tt

abbrev half_f : Float
half_f = record { sign = false; mag = 0x3FE0000000000000 }

-- max_v 0.4, max_w 1.0, waypoint 4, dt 1/3, clips 0.5 and 1.0
abbrev pd : WaypointPd
pd = record {
  max_v = record { sign = false; mag = 0x3FD999999999999A };
  max_w = one_f;
  waypoint_select = 4;
  dt = record { sign = false; mag = 0x3FD5555555555555 };
  linear_clip = half_f;
  angular_clip = one_f;
}

pd-IsUsable : IsUsable platform pd
unfolding program
pd-IsUsable = record {
  v_sign = refl;
  v_finite = refl;
  w_sign = refl;
  w_finite = refl;
  w_pos = refl;
  linear_clip_ok = refl;
  linear_clip_finite = refl;
  angular_clip_ok = refl;
  angular_clip_finite = refl;
  dt_nonzero = refl;
  double_dt_nonzero = refl;
  ratio_finite = refl;
  ratio_pos = refl;
  exact_v = refl;
  exact_w = refl;
}

abbrev ahead_left : Pose
ahead_left = record {
  x = one_f;
  y = half_f;
  orientation = record { x = zero_f; y = zero_f; z = zero_f; w = one_f };
}

abbrev two_points : FramePath
two_points = record { frame_id = "base_link"; poses = ahead_left ∷ ahead_left ∷ [] }

abbrev no_points : FramePath
no_points = record { frame_id = "base_link"; poses = [] }

abbrev elsewhere : FramePath
elsewhere = record { frame_id = "odom"; poses = ahead_left ∷ [] }

abbrev not_a_number : PathPoint
not_a_number = record { x = nan_f; y = one_f; cos = one_f; sin = zero_f }

compute-Within_example :
    (cmd : TwistCmd) × (compute platform pd (not_a_number ∷ to_point ahead_left ∷ []) ≡ ok cmd)
    × Within pd cmd
compute-Within_example =
    compute-Within platform platform-Rounds pd pd-IsUsable (not_a_number ∷ to_point ahead_left ∷ [])

-- the command for that waypoint: 0.4 m/s, at a turn
nan_moves : lt zero_f pd.max_v ≡ true
unfolding program
nan_moves = refl

abbrev late : List ℕ
late = 5 ∷ 9000000000000 ∷ []

abbrev story : List Event
story =
    path_event two_points
    ∷ tick_event 10
    ∷ stop_event true
    ∷ tick_event 20
    ∷ stop_event false
    ∷ tick_event 30
    ∷ path_event elsewhere
    ∷ tick_event 40
    ∷ []

run-plain_example :
    run platform story (init pd "base_link" 1000 zero_f)
    ≡ plain_run platform story (forget (init pd "base_link" 1000 zero_f))
run-plain_example = run-plain platform pd "base_link" 1000 zero_f story
