-- ===== src/Bench/Step/Halting.antt =====
-- bench/src/bench/navida_step.py: a stopped cycle waits for an explicit resumption.
use rvln.Prelude.{ℕ, ◌≡◌, refl, Bool, true, false, List, [], ◌∷◌, raise, value_error, ◌∙◌, arith}
use rvln.Float.{Float, Arith}
use rvln.Bench.Step.{
  Action, Request, StepCycle, Pose, begin_settling, cancel, confirm_motor_disabled, fail, request,
  start, accept, can_request,
}
use rvln.Bench.Step.Observing.{observe, track, settle, confirm_stop}
use rvln.Bench.Step.Commanding.{command, standing}
use rvln.Bench.Step.Runs.{
  Call, cancel_call, confirm_call, fail_call, observe_call, request_call, accept_call, start_call,
  command_call, step, run,
}

-- No call of these resumes.
abbrev pub NoResume : List Call → Type 0
NoResume [] = Unit
NoResume (cancel_call stopped now_ns now ∷ calls) = (stopped ≡ true) × NoResume calls
NoResume (_ ∷ calls) = NoResume calls

module _ (m : Arith) where
  settle-stopped :
      (pose : Pose) (stamp now_ns : ℕ) (c : StepCycle)
      → (settle m pose stamp now_ns c).stopped ≡ c.stopped
  unfolding settle confirm_stop
  settle-stopped pose stamp now_ns c = ground arith

  observe-stopped :
      (pose : Pose) (stamp : ℕ) (now : Float) (now_ns : ℕ) (c : StepCycle)
      → (observe m pose stamp now now_ns c).stopped ≡ c.stopped
  unfolding observe
  observe-stopped pose stamp now now_ns c =
      let seen : (track m pose stamp now c).stopped ≡ c.stopped = unfold track in refl in
      ground (arith, seen, settle-stopped pose stamp now_ns (track m pose stamp now c))

  accept-stopped :
      (r : Request) (action : Action) (now : Float) (now_ns : ℕ) (c : StepCycle)
      → c.stopped ≡ true
      → (accept m r action now now_ns c).1.stopped ≡ true
  unfolding accept fail cancel begin_settling start
  accept-stopped r action now now_ns c h = ground arith

  run-stopped :
      (calls : List Call) (c : StepCycle)
      → NoResume calls
      → c.stopped ≡ true
      → (run m calls c).stopped ≡ true
  unfolding run step
  run-stopped [] c n h = h
  run-stopped (cancel_call stopped now_ns now ∷ calls) c n h =
      run-stopped calls (cancel stopped now_ns now c) n.1 (unfold cancel begin_settling in n.0)
  run-stopped (confirm_call now_ns now ∷ calls) c n h =
      run-stopped calls (confirm_motor_disabled now_ns now c) n
        (unfold confirm_motor_disabled begin_settling in h)
  run-stopped (fail_call reason now now_ns ∷ calls) c n h =
      run-stopped calls (fail reason now now_ns c) n (unfold fail cancel begin_settling in refl)
  run-stopped (observe_call pose stamp_ns now now_ns ∷ calls) c n h =
      run-stopped calls (observe m pose stamp_ns now now_ns c) n
        (observe-stopped pose stamp_ns now now_ns c ∙ h)
  run-stopped (request_call frame_id capture_ns now now_ns ∷ calls) c n h =
      run-stopped calls (request m frame_id capture_ns now now_ns c).1 n
        (unfold request in ground arith)
  run-stopped (accept_call r action now now_ns ∷ calls) c n h =
      run-stopped calls (accept m r action now now_ns c).1 n
        (accept-stopped r action now now_ns c h)
  run-stopped (start_call action now now_ns ∷ calls) c n h =
      run-stopped calls (start m action now now_ns c).1 n (unfold start in ground arith)
  run-stopped (command_call now now_ns enabled ∷ calls) c n h =
      run-stopped calls (command m now now_ns enabled c).1 n (unfold command in ground arith)

  -- Once a cycle is stopped, by a failure or by a forced stop, and until it is cancelled with a
  -- resumption: whatever else is called, every round commands zero, no request can be made, and no
  -- action starts.
  pub stopped_stays :
      (calls : List Call) (c : StepCycle) (now : Float) (now_ns f capture : ℕ) (enabled : Bool)
      (action : Action)
      → NoResume calls
      → c.stopped ≡ true
      → let late = run m calls c in
        (command m now now_ns enabled late ≡ (standing, late))
        × (request m f capture now now_ns late ≡ (raise value_error, late))
        × (start m action now now_ns late ≡ (false, late))
  unfolding command request can_request start
  stopped_stays calls c now now_ns f capture enabled action n h =
      let halted = run-stopped calls c n h in
      (ground (arith, halted), ground (arith, halted), ground (arith, halted))
