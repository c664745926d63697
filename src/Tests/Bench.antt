-- ===== src/Tests/Bench.antt =====
-- The step cycle and the bridge of the benchmark's NaVIDA client on concrete inputs.
use rvln.Prelude.{◌≡◌, refl, true, false, some, none, List, [], ◌∷◌, ok, raise, value_error, All}
use rvln.Float.{zero_f, lt, le, is_nan}
use rvln.Float.Literals.{lit_0_75, lit_2, minus_inf}
use rvln.Bench.Step as Step
use rvln.Bench.Step.{
  Pose, Action, Request, StepCycle, can_request, request, cancel, fail, accept, odom_stale,
}
use rvln.Bench.Step.Runs.{command_call, fail_call, start_call, observe_call, request_call, run}
use rvln.Bench.Step.Commanding.{command, standing, act_if, act, move, drive, overdue}
use rvln.Bench.Step.Commanding.Bounds.{IsUsable}
use rvln.Bench.Step.Valid.{IsValid, cycle-IsValid}
use rvln.Bench.Step.Replies.{failed, cancel_by, accept-cancel}
use rvln.Bench.Step.Halting.{stopped_stays}
use rvln.Bench.Navida as Navida
use rvln.Bench.Navida.{NavidaStepBridge, Output, waiting, accepted, ready}
use rvln.Bench.Navida.Ticking.{unfinished}
use rvln.Bench.Navida.Events as Events
use rvln.Bench.Navida.Events.{Event, stop_event, tick_event}
use rvln.Bench.Navida.Safety.{Careful, handle-Careful_always}
use rvln.Bench.Navida.Flight.{IsCoherent}
use rvln.Bench.Navida.Flight.Rounds.{run-IsCoherent}
use rvln.Bench.Navida.Safety.Standing.{Still}
use rvln.Bench.Navida.Shutdown.{Round, destroy_node}
use rvln.Bench.Navida.Shutdown.Halted.{is_quiet}
use rvln.Bench.Navida.Shutdown.Standing.{destroy_node-Still}
use rvln.Tests.Platform.{platform, times, over}

abbrev origin : Pose
origin = record { x = zero_f; y = zero_f; yaw = zero_f; yaw_rate = zero_f }

abbrev ahead : Action
ahead = record { distance = lit_0_75; angle = zero_f }

-- A new cycle with the limits of 0.75 m/s and 2 rad/s.
abbrev new_cycle : StepCycle
new_cycle = record {
  max_v = lit_0_75;
  max_w = lit_2;
  pose = none;
  odom_ns = 0;
  odom_at = minus_inf;
  generation = 0;
  floor_ns = 0;
  pending = none;
  action = none;
  origin = none;
  turn_progress = zero_f;
  yaw_rate = zero_f;
  motion_at = zero_f;
  settling = true;
  stopped = false;
  fault = none;
  stop_ns = 0;
  settle_at = zero_f;
  settle_pose = none;
  settle_stamp_ns = 0;
  stable_since_ns = 0;
  turn_target = none;
  turn_integral = zero_f;
  turn_control_at = zero_f;
  turn_emitted = false;
  settle_not_before_ns = 0;
}

-- It stands still, has seen odometry and may ask for an action.
abbrev settled : StepCycle
settled = record new_cycle { pose = some origin; odom_ns = 5; odom_at = zero_f; settling = false }

-- It drives forward.
abbrev moving : StepCycle
moving = record settled { action = some ahead; origin = some origin }

new_cycle-init : Step.init lit_0_75 lit_2 ≡ ok new_cycle
unfolding Step.init lt
new_cycle-init = refl

moving-IsUsable : IsUsable moving
unfolding is_nan
moving-IsUsable = record { v_sign = refl; w_sign = refl; w_number = refl }

-- The robot drives at 0.375 m/s.
moving-command :
    (command platform zero_f 9 true moving).0
    ≡ (record { sign = false; mag = 4600427019358961664 }, zero_f)
unfolding command act_if act move drive overdue odom_stale lt times over
moving-command = refl

cycle-IsValid_example : IsValid (
    run platform
      (observe_call origin 5 zero_f 6 ∷ start_call ahead zero_f 7 ∷ fail_call "lost" zero_f 8 ∷ [])
      new_cycle)
cycle-IsValid_example =
    cycle-IsValid platform lit_0_75 lit_2
      (observe_call origin 5 zero_f 6 ∷ start_call ahead zero_f 7 ∷ fail_call "lost" zero_f 8 ∷ [])
      new_cycle new_cycle-init

abbrev asked : Request
asked = record { frame_id = 3; generation = 0; capture_ns = 8 }

settled-request :
    request platform 3 8 zero_f 9 settled ≡ (ok asked, record settled { pending = some asked })
unfolding request can_request le
settled-request = refl

accept-cancel_example :
    accept platform asked ahead zero_f 12 (
      run platform (command_call zero_f 11 true ∷ []) (
        cancel_by platform
          (failed "lost" zero_f 10)
          (run platform [] (record settled { pending = some asked }))))
    ≡ (
      false,
      run platform (command_call zero_f 11 true ∷ []) (
          cancel_by platform
            (failed "lost" zero_f 10)
            (run platform [] (record settled { pending = some asked }))),
    )
accept-cancel_example =
    accept-cancel platform 3 8 9 zero_f settled asked (record settled { pending = some asked }) []
      (command_call zero_f 11 true ∷ []) (failed "lost" zero_f 10) ahead zero_f 12 settled-request

stopped_stays_example :
    (command platform zero_f 9 true
        (run platform (request_call 1 2 zero_f 3 ∷ []) (fail "lost" zero_f 8 moving))
      ≡ (standing, run platform (request_call 1 2 zero_f 3 ∷ []) (fail "lost" zero_f 8 moving)))
    × (request platform 1 8 zero_f 9
          (run platform (request_call 1 2 zero_f 3 ∷ []) (fail "lost" zero_f 8 moving))
        ≡ (
          raise value_error,
          run platform (request_call 1 2 zero_f 3 ∷ []) (fail "lost" zero_f 8 moving),
        ))
    × (Step.start platform ahead zero_f 9
          (run platform (request_call 1 2 zero_f 3 ∷ []) (fail "lost" zero_f 8 moving))
        ≡ (false, run platform (request_call 1 2 zero_f 3 ∷ []) (fail "lost" zero_f 8 moving)))
unfolding fail
stopped_stays_example =
    stopped_stays platform (request_call 1 2 zero_f 3 ∷ []) (fail "lost" zero_f 8 moving) zero_f 9 1
      8 true ahead tt refl

-- The bridge with the motor ready and the robot under way.
abbrev bridge : NavidaStepBridge
bridge = record (Navida.init moving zero_f) { power_state = ready; goal = some "door" }

handle-Careful_always_example :
    All
      (Careful platform
        (tick_event waiting unfinished waiting zero_f 9)
        (Events.run platform (stop_event false accepted zero_f 7 ∷ []) bridge))
      (Events.handle platform
        (tick_event waiting unfinished waiting zero_f 9)
        (Events.run platform (stop_event false accepted zero_f 7 ∷ []) bridge)).0
handle-Careful_always_example =
    handle-Careful_always platform (stop_event false accepted zero_f 7 ∷ [])
      (tick_event waiting unfinished waiting zero_f 9) bridge moving-IsUsable

run-IsCoherent_example : IsCoherent (
    Events.run platform
      (stop_event false accepted zero_f 7 ∷ tick_event waiting unfinished waiting zero_f 9 ∷ [])
      (Navida.init new_cycle zero_f))
run-IsCoherent_example =
    run-IsCoherent platform lit_0_75 lit_2 zero_f new_cycle
      (stop_event false accepted zero_f 7 ∷ tick_event waiting unfinished waiting zero_f 9 ∷ [])
      new_cycle-init

-- The timer runs during the shutdown, and the motor's power answers.
abbrev rounds : List Round
rounds =
    record {
      event = some (tick_event waiting unfinished waiting zero_f 12);
      answer = accepted;
      now = zero_f;
      now_ns = 12;
    }
    ∷ record { event = none; answer = waiting; now = zero_f; now_ns = 13 }
    ∷ []

destroy_node-Still_example : All Still (destroy_node platform waiting zero_f 11 rounds bridge).0
unfolding is_quiet
destroy_node-Still_example =
    destroy_node-Still platform waiting zero_f 11 rounds bridge moving-IsUsable (refl, (refl, tt))
