-- ===== src/Bench/Step/Valid.antt =====
-- bench/src/bench/navida_step.py: what holds of a `StepCycle` between calls.
use rvln.Prelude.{
  ℕ, ◌≡◌, ◌≤◌, Bool, true, not, ◌||◌, none, some, is_some, ◌==◌, List, [], ◌∷◌, String, ok, arith,
  Bool-cases, leb, inl, inr, subst, sym,
}
use rvln.Float.{Float, Arith}
use rvln.Bench.Step.{
  Pose, Action, Request, StepCycle, init, begin_settling, cancel, confirm_motor_disabled, fail,
  request, start, accept, can_request, max_ns,
}
use rvln.Bench.Step.Observing.{observe, track, settle, confirm_stop}
use rvln.Bench.Step.Commanding.{command, act_if, act, idle, move, turn}
use rvln.Bench.Step.Runs.{
  Call, cancel_call, confirm_call, fail_call, observe_call, request_call, accept_call, start_call,
  command_call, step, run,
}

-- The request that waits for its reply is of the current generation.
abbrev pub is_current : StepCycle → Bool
is_current c = elim c.pending [ none ↦ true | some r ↦ r.generation == c.generation ]

-- Nothing is left that could set a stopped robot in motion.
abbrev pub is_halted : StepCycle → Bool
is_halted c = not (is_some c.action || (is_some c.pending || is_some c.turn_target))

pub record IsValid (c : StepCycle) : Type 0 where
  pub current : is_current c ≡ true
  pub halted : (not c.stopped || is_halted c) ≡ true
  pub stamped : c.settle_stamp_ns ≤ c.odom_ns

cancel-IsValid :
    (s : Bool) (now_ns : ℕ) (now : Float) (c : StepCycle)
    → IsValid c
    → IsValid (cancel s now_ns now c)
unfolding cancel begin_settling
cancel-IsValid s now_ns now c v = ground arith

confirm-IsValid :
    (now_ns : ℕ) (now : Float) (c : StepCycle)
    → IsValid c
    → IsValid (confirm_motor_disabled now_ns now c)
unfolding confirm_motor_disabled begin_settling
confirm-IsValid now_ns now c v = ground arith

fail-IsValid :
    (reason : String) (now : Float) (now_ns : ℕ) (c : StepCycle)
    → IsValid c
    → IsValid (fail reason now now_ns c)
unfolding fail cancel begin_settling
fail-IsValid reason now now_ns c v = ground arith

module _ (m : Arith) where
  confirm_stop-IsValid :
      (now_ns : ℕ) (c : StepCycle) → IsValid c → IsValid (confirm_stop m now_ns c)
  unfolding confirm_stop
  confirm_stop-IsValid now_ns c v = ground arith

  settle-IsValid :
      (pose : Pose) (stamp now_ns : ℕ) (c : StepCycle)
      → stamp ≤ c.odom_ns
      → IsValid c
      → IsValid (settle m pose stamp now_ns c)
  unfolding settle confirm_stop
  settle-IsValid pose stamp now_ns c h v = ground arith

  request-IsValid :
      (f cap : ℕ) (now : Float) (now_ns : ℕ) (c : StepCycle)
      → IsValid c
      → IsValid (request m f cap now now_ns c).1
  unfolding request can_request
  request-IsValid f cap now now_ns c v = ground arith

  start-IsValid :
      (action : Action) (now : Float) (now_ns : ℕ) (c : StepCycle)
      → IsValid c
      → IsValid (start m action now now_ns c).1
  unfolding start begin_settling
  start-IsValid action now now_ns c v = ground arith

  accept-IsValid :
      (r : Request) (action : Action) (now : Float) (now_ns : ℕ) (c : StepCycle)
      → IsValid c
      → IsValid (accept m r action now now_ns c).1
  unfolding accept
  accept-IsValid r action now now_ns c v =
      let answered : StepCycle = record c { pending = none } in
      let kept : IsValid answered = ground arith in
      ground (
        arith,
        kept,
        fail-IsValid "reply expired" now now_ns answered kept,
        start-IsValid action now now_ns answered kept,
      )

  track-IsValid :
      (pose : Pose) (stamp : ℕ) (now : Float) (c : StepCycle)
      → c.odom_ns ≤ stamp
      → IsValid c
      → IsValid (track m pose stamp now c)
  unfolding track
  track-IsValid pose stamp now c h v = ground arith

  observe-IsValid :
      (pose : Pose) (stamp : ℕ) (now : Float) (now_ns : ℕ) (c : StepCycle)
      → IsValid c
      → IsValid (observe m pose stamp now now_ns c)
  unfolding observe
  observe-IsValid pose stamp now now_ns c v = elim (Bool-cases (leb stamp c.odom_ns)) [
    | inl old ↦ rw (old, observe) v
    | inr newer ↦
        let seen : StepCycle = track m pose stamp now c in
        let kept : IsValid seen = track-IsValid pose stamp now c (ground arith) v in
        let reached : stamp ≤ seen.odom_ns = unfold track in omega arith in
        elim (Bool-cases (not c.settling || leb stamp (max_ns c.stop_ns c.settle_not_before_ns))) [
          | inl tracked ↦
              let e : observe m pose stamp now now_ns c ≡ seen = simp (newer, tracked, observe) in
              subst IsValid (sym e) kept
          | inr settled ↦
              let e : observe m pose stamp now now_ns c ≡ settle m pose stamp now_ns seen =
                simp (newer, settled, observe) in
              subst IsValid (sym e) (settle-IsValid pose stamp now_ns seen reached kept)
        ]
  ]

  command-IsValid :
      (now : Float) (now_ns : ℕ) (enabled : Bool) (c : StepCycle)
      → IsValid c
      → IsValid (command m now now_ns enabled c).1
  unfolding command act_if act idle move turn fail cancel begin_settling
  command-IsValid now now_ns enabled c v = ground arith

  step-IsValid : (call : Call) (c : StepCycle) → IsValid c → IsValid (step m call c)
  unfolding step
  step-IsValid (cancel_call stopped now_ns now) c v = cancel-IsValid stopped now_ns now c v
  step-IsValid (confirm_call now_ns now) c v = confirm-IsValid now_ns now c v
  step-IsValid (fail_call reason now now_ns) c v = fail-IsValid reason now now_ns c v
  step-IsValid (observe_call pose stamp_ns now now_ns) c v =
      observe-IsValid pose stamp_ns now now_ns c v
  step-IsValid (request_call frame_id capture_ns now now_ns) c v =
      request-IsValid frame_id capture_ns now now_ns c v
  step-IsValid (accept_call r action now now_ns) c v = accept-IsValid r action now now_ns c v
  step-IsValid (start_call action now now_ns) c v = start-IsValid action now now_ns c v
  step-IsValid (command_call now now_ns enabled) c v = command-IsValid now now_ns enabled c v

  calls-IsValid : (calls : List Call) (c : StepCycle) → IsValid c → IsValid (run m calls c)
  unfolding run
  calls-IsValid [] c v = v
  calls-IsValid (call ∷ calls) c v = calls-IsValid calls (step m call c) (step-IsValid call c v)

  -- From a new cycle on, whatever calls are made in whatever order: a request that waits for its
  -- reply is of the current generation; a stopped cycle has no action, no request and no turn to
  -- finish; and the stamps that a stop is measured by never run ahead of the odometry's.
  pub cycle-IsValid :
      (max_v max_w : Float) (calls : List Call) (c : StepCycle)
      → init max_v max_w ≡ ok c
      → IsValid (run m calls c)
  unfolding init
  cycle-IsValid max_v max_w calls c e = calls-IsValid calls c (ground arith)
