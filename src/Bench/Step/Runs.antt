-- ===== src/Bench/Step/Runs.antt =====
-- bench/src/bench/navida_step.py: the calls on a `StepCycle`, in any order.
use rvln.Prelude.{ℕ, Bool, String, List, [], ◌∷◌}
use rvln.Float.{Float, Arith}
use rvln.Bench.Step.{
  Pose, Action, Request, StepCycle, cancel, confirm_motor_disabled, fail, request, start, accept,
}
use rvln.Bench.Step.Observing.{observe}
use rvln.Bench.Step.Commanding.{command}

pub data Call : Type 0 where
  cancel_call : Bool → ℕ → Float → Call
  confirm_call : ℕ → Float → Call
  fail_call : String → Float → ℕ → Call
  observe_call : Pose → ℕ → Float → ℕ → Call
  request_call : ℕ → ℕ → Float → ℕ → Call
  accept_call : Request → Action → Float → ℕ → Call
  start_call : Action → Float → ℕ → Call
  command_call : Float → ℕ → Bool → Call

module _ (m : Arith) where
  unfoldable pub step : Call → StepCycle → StepCycle
  step (cancel_call stopped now_ns now) c = cancel stopped now_ns now c
  step (confirm_call now_ns now) c = confirm_motor_disabled now_ns now c
  step (fail_call reason now now_ns) c = fail reason now now_ns c
  step (observe_call pose stamp_ns now now_ns) c = observe m pose stamp_ns now now_ns c
  step (request_call frame_id capture_ns now now_ns) c =
      (request m frame_id capture_ns now now_ns c).1
  step (accept_call r action now now_ns) c = (accept m r action now now_ns c).1
  step (start_call action now now_ns) c = (start m action now now_ns c).1
  step (command_call now now_ns enabled) c = (command m now now_ns enabled c).1

  unfoldable pub run : List Call → StepCycle → StepCycle
  unfolding step
  run [] c = c
  run (call ∷ calls) c = run calls (step call c)
