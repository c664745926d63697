-- ===== src/Bench/Step/Replies.antt =====
-- bench/src/bench/navida_step.py: replies that come late.
use rvln.Prelude.{none, ℕ, ◌+◌, ◌≡◌, refl, ◌≤◌, ◌<◌, Bool, String, false, ok, List, [], ◌∷◌, arith}
use rvln.Float.{Float, Arith}
use rvln.Bench.Step.{
  Action, Request, StepCycle, Pose, begin_settling, cancel, confirm_motor_disabled, fail, request,
  start, accept,
}
use rvln.Bench.Step.Observing.{observe, track, settle, confirm_stop}
use rvln.Bench.Step.Commanding.{command, act_if, act, idle, move, turn}
use rvln.Bench.Step.Runs.{
  Call, cancel_call, confirm_call, fail_call, observe_call, request_call, accept_call, start_call,
  command_call, step, run,
}

pub data Cancellation : Type 0 where
  cancelled : Bool → ℕ → Float → Cancellation
  failed : String → Float → ℕ → Cancellation

module _ (m : Arith) where
  start-generation :
      (action : Action) (now : Float) (now_ns : ℕ) (c : StepCycle)
      → (start m action now now_ns c).1.generation ≡ c.generation
  unfolding start begin_settling
  start-generation action now now_ns c = ground arith

  accept-generation :
      (r : Request) (action : Action) (now : Float) (now_ns : ℕ) (c : StepCycle)
      → c.generation ≤ (accept m r action now now_ns c).1.generation
  unfolding accept fail cancel begin_settling
  accept-generation r action now now_ns c =
      ground (arith, start-generation action now now_ns (record c { pending = none }))

  settle-generation :
      (pose : Pose) (stamp now_ns : ℕ) (c : StepCycle)
      → (settle m pose stamp now_ns c).generation ≡ c.generation
  unfolding settle confirm_stop
  settle-generation pose stamp now_ns c = ground arith

  observe-generation :
      (pose : Pose) (stamp : ℕ) (now : Float) (now_ns : ℕ) (c : StepCycle)
      → (observe m pose stamp now now_ns c).generation ≡ c.generation
  unfolding observe
  observe-generation pose stamp now now_ns c =
      let seen : (track m pose stamp now c).generation ≡ c.generation = unfold track in refl in
      ground (arith, seen, settle-generation pose stamp now_ns (track m pose stamp now c))

  command-generation :
      (now : Float) (now_ns : ℕ) (enabled : Bool) (c : StepCycle)
      → c.generation ≤ (command m now now_ns enabled c).1.generation
  unfolding command act_if act idle move turn fail cancel begin_settling
  command-generation now now_ns enabled c = ground arith

  step-generation : (call : Call) (c : StepCycle) → c.generation ≤ (step m call c).generation
  unfolding step cancel confirm_motor_disabled fail begin_settling request
  step-generation (cancel_call stopped now_ns now) c = omega arith
  step-generation (confirm_call now_ns now) c = omega arith
  step-generation (fail_call reason now now_ns) c = omega arith
  step-generation (observe_call pose stamp_ns now now_ns) c =
      omega (arith, observe-generation pose stamp_ns now now_ns c)
  step-generation (request_call frame_id capture_ns now now_ns) c = ground arith
  step-generation (accept_call r action now now_ns) c = accept-generation r action now now_ns c
  step-generation (start_call action now now_ns) c =
      omega (arith, start-generation action now now_ns c)
  step-generation (command_call now now_ns enabled) c = command-generation now now_ns enabled c

  run-generation : (calls : List Call) (c : StepCycle) → c.generation ≤ (run m calls c).generation
  unfolding run
  run-generation [] c = omega arith
  run-generation (call ∷ calls) c =
      omega (arith, step-generation call c, run-generation calls (step m call c))

  accept_old :
      (r : Request) (action : Action) (now : Float) (now_ns : ℕ) (c : StepCycle)
      → r.generation < c.generation
      → accept m r action now now_ns c ≡ (false, c)
  unfolding accept
  accept_old r action now now_ns c h = ground arith

  -- What cancels a request: a new goal or a forced stop, or a failure.
  unfoldable pub cancel_by : Cancellation → StepCycle → StepCycle
  cancel_by (cancelled stopped now_ns now) c = cancel stopped now_ns now c
  cancel_by (failed reason now now_ns) c = fail reason now now_ns c

  cancel_by-generation :
      (by : Cancellation) (c : StepCycle) → (cancel_by by c).generation ≡ c.generation + 1
  unfolding cancel_by cancel fail begin_settling
  cancel_by-generation (cancelled stopped now_ns now) c = refl
  cancel_by-generation (failed reason now now_ns) c = refl

  -- A request is made; other calls follow; the cycle is cancelled, by a new goal or a forced stop, or
  -- by a failure; and yet other calls follow. A reply to that request is then refused, whenever it
  -- comes, and it changes nothing.
  pub accept-cancel :
      (f capture now_ns : ℕ) (now : Float) (c : StepCycle) (r : Request) (c' : StepCycle)
      (before after : List Call) (by : Cancellation) (action : Action) (reply_at : Float)
      (reply_ns : ℕ)
      → request m f capture now now_ns c ≡ (ok r, c')
      → let late = run m after (cancel_by by (run m before c')) in
        accept m r action reply_at reply_ns late ≡ (false, late)
  accept-cancel f capture now_ns now c r c' before after by action reply_at reply_ns made =
      let now_current : r.generation ≡ c'.generation = unfold request in ground arith in
      let halfway = run m before c' in
      let stopped = cancel_by by halfway in
      accept_old r action reply_at reply_ns (run m after stopped) (
        omega (
          arith,
          now_current,
          cancel_by-generation by halfway,
          run-generation before c',
          run-generation after stopped,
        ))
