-- ===== src/Tests/Lives.antt =====
-- A live episode on concrete inputs.
use rvln.Prelude.{
  ℕ, ◌≡◌, refl, Bool, true, false, String, some, none, List, [], ◌∷◌, ◌++◌, ok, runtime_error,
}
use rvln.Float.{Float, zero_f, one_f, lt, le}
use rvln.Edge.Messages.{Pose}
use rvln.Bench.Live.{
  Episode, Event, state_event, command_event, observation_event, Reply, shutdown, note_fault,
  handle, on_state, on_command, on_observation, count_observation, for_goal, infer_remote, catch,
  read_reply, output_of, embedding_shape, accept_reply, is_caught,
}
use rvln.Bench.Live.Exchanges.{Exchange}
use rvln.Bench.Live.Answers.{run_events, run_events-Exchange}
use rvln.Bench.Live.Running.{
  follower_stop, motor, Action, asked, goal_published, Round, Answer, Script, LiveRun, run, body,
  start_up, finish, run_loop, conclude, confirm, drive, stop_for, spin_until, spin_once, spin_event,
  spin_events, set_bool, start_trace, end_trace, is_stopped, after_body, after_shutdown, shut_down,
  start_run,
}
use rvln.Bench.Live.Stopping.{WasStill}
use rvln.Bench.Live.Ends.{run-confirmed, run-stops, run-motor_left}
use rvln.Tests.Platform.{platform}
use rvln.Tests.Remote.{seen}

program : Unit {0}
unfolding run body start_up finish run_loop conclude confirm drive stop_for spin_until spin_once
    spin_event spin_events set_bool start_trace end_trace is_stopped after_body after_shutdown
    shut_down handle on_state on_command on_observation count_observation for_goal infer_remote
    catch read_reply output_of embedding_shape accept_reply is_caught run_events lt le
program = tt

abbrev any_jpeg : List ℕ → Bool
any_jpeg bytes = true

abbrev here : Pose
here = record {
  x = zero_f;
  y = zero_f;
  orientation = record { x = zero_f; y = zero_f; z = zero_f; w = one_f };
}

abbrev new_episode : Episode
new_episode = record {
  instruction = "door";
  trace = [];
  inferences = [];
  received = 0;
  published = 0;
  path_count = 0;
  nonempty_paths = 0;
  path_samples = [];
  model_version = none;
  last_cmd = (zero_f, zero_f);
  last_cmd_at = zero_f;
  last_pose = none;
  last_odom_pose = none;
  last_odom_velocity = (zero_f, zero_f);
  started_at = none;
  errors = [];
  video_frames = 0;
}

abbrev reply : String → Reply
reply version = record {
  frame_id = 3;
  embedding = (zero_f ∷ zero_f ∷ []) ∷ [];
  inference_ms = zero_f;
  model_version = version;
  server_wall_ms = ok zero_f;
}

abbrev events : List Event
events =
    observation_event (seen 3 []) (ok (reply "a"))
    ∷ observation_event (seen 3 []) (ok (reply "b"))
    ∷ []

run_events-Exchange_example : Exchange "a" (run_events platform any_jpeg events new_episode).1
unfolding program
run_events-Exchange_example = run_events-Exchange platform any_jpeg events new_episode "a" refl

abbrev yes : Answer
yes = record { available = true; events = []; success = some true }

abbrev still : Round
still = record { event = some (command_event zero_f zero_f zero_f); now = zero_f }

abbrev script : Script
script = record {
  pose_rounds = record { event = some (state_event here zero_f); now = zero_f } ∷ [];
  stop_available = true;
  gate = yes;
  embedding_rounds =
      record { event = some (observation_event (seen 3 []) (ok (reply "a"))); now = zero_f } ∷ [];
  start = zero_f;
  motor_on = yes;
  release = yes;
  rounds = record { event = none; now = zero_f } ∷ [];
  stop = yes;
  confirm_rounds = still ∷ [];
  end = zero_f;
  last_stop = yes;
  motor_off = yes;
}

abbrev goal : Float × Float
goal = (zero_f, zero_f)

abbrev ended : LiveRun
ended = run platform any_jpeg goal one_f script new_episode

run-confirmed_example :
    (ended.confirmed_stop ≡ true) × WasStill platform any_jpeg goal one_f script new_episode
unfolding program
run-confirmed_example = run-confirmed platform any_jpeg goal one_f script new_episode refl refl

abbrev asked_before : List Action
asked_before =
    asked follower_stop true
    ∷ goal_published
    ∷ asked motor true
    ∷ asked follower_stop false
    ∷ asked follower_stop true
    ∷ []

abbrev driven : LiveRun
driven =
    after_body platform any_jpeg
      (body platform any_jpeg goal one_f script (start_run platform any_jpeg new_episode))

run-stops_example :
    ended.actions ≡ (driven.actions ++ asked follower_stop true ∷ []) ++ asked motor false ∷ []
unfolding program
run-stops_example =
    run-stops platform any_jpeg goal one_f script new_episode driven true refl refl refl refl

-- The follower's service goes away after the release.
abbrev lost : Script
lost = record script { last_stop = record { available = false; events = []; success = none } }

run-motor_left_example :
    ((run platform any_jpeg goal one_f lost new_episode).actions ≡ driven.actions)
    × ((run platform any_jpeg goal one_f lost new_episode).node
        ≡ note_fault (shutdown runtime_error) driven.node)
unfolding program
run-motor_left_example =
    run-motor_left platform any_jpeg goal one_f lost new_episode driven refl refl

-- The motor was switched on, and is never switched off.
left_on : (run platform any_jpeg goal one_f lost new_episode).actions ≡ asked_before
unfolding program
left_on = refl
