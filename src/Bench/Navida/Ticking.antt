-- ===== src/Bench/Navida/Ticking.antt =====
-- bench/src/bench/live_navida.py: the timer, which looks at the inference's outcome, publishes the
-- velocities and asks for the next action.
use rvln.Prelude.{
  ltb, ℕ, ◌+◌, ◌*◌, Bool, true, false, not, ◌&&◌, ◌||◌, ◌==◌, String, none, some, is_some, List, [],
  ◌∷◌, ◌++◌, map, drop, if◌then◌else◌, Result, ok, raise,
}
use rvln.Float.{Float, Arith, zero_f, neg, min}
use rvln.Float.Literals.{lit_0_75, lit_100, degree}
use rvln.Edge.Messages.{Observation}
use rvln.Bench.Step.{Action, Request, StepCycle, accept, fail, start, can_request, request}
use rvln.Bench.Step.Commanding.{command}
use rvln.Bench.Navida.{
  NavidaStepBridge, Output, twist, infer, PowerAnswer, PowerState, ready, enabling, verify,
  is_ready, power_tick, stop_power,
}
use rvln.Bench.Navida.Callbacks.{same_text}

-- What `re.findall` finds in a chunk: a verb and its number.
pub data Verb : Type 0 where
  forward turn_left turn_right : Verb

pub record Reply : Type 0 where
  pub frame_id : ℕ
  pub action : Action
  pub found : List (Verb × ℕ)

-- `min(45, n)`
abbrev pub at_most : ℕ → ℕ → ℕ
at_most limit n = if ltb n limit then n else limit

unfoldable pub chunk_action : Arith → Verb × ℕ → Action
chunk_action m (forward, n) = record {
  distance = min lit_0_75 (m.div (m.of_ℕ n) lit_100);
  angle = zero_f;
}
chunk_action m (turn_left, n) = record {
  distance = zero_f;
  angle = m.mul (m.of_ℕ (at_most 45 n)) degree;
}
chunk_action m (turn_right, n) = record {
  distance = zero_f;
  angle = neg (m.mul (m.of_ℕ (at_most 45 n)) degree);
}

-- The primitives after the first.
unfoldable pub chunk_actions : Arith → List (Verb × ℕ) → List Action
unfolding chunk_action
chunk_actions m found = map (chunk_action m) (drop 1 found)

-- What the worker's future has come to: not done, a reply, or an error that is caught.
pub data Outcome : Type 0 where
  unfinished : Outcome
  answered : Reply → Outcome
  failed : String → Outcome

module _ (m : Arith) where
  -- `except (OSError, ValueError, KeyError, TypeError)`: an error of the current generation stops.
  unfoldable pub request_failed : String → Request → Float → ℕ → NavidaStepBridge → NavidaStepBridge
  request_failed reason token now now_ns b =
      if token.generation == b.cycle.generation
      then record b { cycle = fail reason now now_ns b.cycle }
      else b

  unfoldable pub reply_taken : Reply → Request → Float → ℕ → NavidaStepBridge → NavidaStepBridge
  reply_taken reply token now now_ns b =
      let (taken, cycle) = accept m token reply.action now now_ns b.cycle in
      record b { cycle = cycle; queue = if taken then chunk_actions m reply.found else b.queue }

  unfoldable pub request_done : Outcome → Request → Float → ℕ → NavidaStepBridge → NavidaStepBridge
  unfolding request_failed reply_taken
  request_done unfinished token now now_ns b = b
  request_done (failed reason) token now now_ns b = request_failed reason token now now_ns b
  request_done (answered reply) token now now_ns b =
      if reply.frame_id == token.frame_id
      then reply_taken reply token now now_ns b
      else request_failed "reply frame ID mismatch" token now now_ns b

  abbrev pub is_unfinished : Outcome → Bool
  is_unfinished unfinished = true
  is_unfinished o = false

  unfoldable pub finish_request : Outcome → Float → ℕ → NavidaStepBridge → NavidaStepBridge
  finish_request outcome now now_ns b =
      if not b.future || is_unfinished outcome then b else elim b.request_token [
        | none ↦ b
        | some token ↦
            request_done outcome token now now_ns
              (record b { future = false; request_token = none })
      ]

  -- Up to the velocities: the power and the inference's outcome.
  unfoldable pub prepare :
      PowerAnswer → Outcome → Float → ℕ → NavidaStepBridge → List Output × NavidaStepBridge
  prepare answer outcome now now_ns b =
      let (out, b') = power_tick m answer now now_ns b in
      (out, if is_ready b'.power_state then finish_request outcome now now_ns b' else b')

  -- `self.power_state in ("ready", "enabling", "verify")`
  abbrev pub is_powered : PowerState → Bool
  is_powered ready = true
  is_powered enabling = true
  is_powered verify = true
  is_powered s = false

  -- The velocities, and the power's end when the cycle now settles.
  unfoldable pub drive_on :
      PowerAnswer → Float → ℕ → NavidaStepBridge → List Output × NavidaStepBridge
  drive_on after now now_ns b =
      let (velocities, cycle) = command m now now_ns (is_ready b.power_state) b.cycle in
      let b' : NavidaStepBridge = record b { cycle = cycle } in
      if cycle.settling && is_powered b.power_state
      then (let (out, b'') = stop_power m after now now_ns b' in (twist velocities ∷ out, b''))
      else (twist velocities ∷ [], b')

  -- The fault that was last told, and a stopped cycle's queue.
  unfoldable pub note_fault : NavidaStepBridge → NavidaStepBridge
  note_fault b = record b {
    last_fault = if same_text b.cycle.fault b.last_fault then b.last_fault else b.cycle.fault;
    queue = if b.cycle.stopped then [] else b.queue;
  }

  -- The next action of the queue: whether it started.
  unfoldable pub start_queued : Float → ℕ → NavidaStepBridge → Bool × NavidaStepBridge
  start_queued now now_ns b = elim b.queue [
    | [] ↦ (false, b)
    | action ∷ rest ↦
        if is_ready b.power_state
          && (not b.future && (not (is_some b.cycle.action) && not b.cycle.settling))
        then (let (started, cycle) = start m action now now_ns b.cycle in
            (started, record b { cycle = cycle; queue = if started then rest else b.queue }))
        else (false, b)
  ]

  abbrev pub capture_of : Observation → ℕ
  capture_of obs = obs.stamp_sec * 1000000000 + obs.stamp_nanosec

  -- A request that was just made is handed to the worker.
  unfoldable pub submit :
      Observation
      → String
      → Result Request × StepCycle
      → NavidaStepBridge
      → List Output × NavidaStepBridge
  submit obs goal (ok token, cycle) b = (
    infer token.frame_id goal obs.jpeg ∷ [],
    record b { cycle = cycle; request_token = some token; future = true },
  )
  submit obs goal (raise e, cycle) b = ([], b)

  unfoldable pub ask_with :
      Observation → String → Float → ℕ → NavidaStepBridge → List Output × NavidaStepBridge
  ask_with obs goal now now_ns b =
      if can_request m (capture_of obs) now now_ns b.cycle
      then submit obs goal (request m obs.frame_id (capture_of obs) now now_ns b.cycle) b
      else ([], b)

  unfoldable pub ask : Float → ℕ → NavidaStepBridge → List Output × NavidaStepBridge
  ask now now_ns b = if not (is_ready b.power_state) || b.future then ([], b) else elim b.latest [
    | none ↦ ([], b)
    | some obs ↦ elim b.goal [ none ↦ ([], b) | some goal ↦ ask_with obs goal now now_ns b ]
  ]

  unfoldable pub next_action : Float → ℕ → NavidaStepBridge → List Output × NavidaStepBridge
  next_action now now_ns b =
      let (started, b') = start_queued now now_ns b in
      if started then ([], b') else ask now now_ns b'

  -- `after` is the answer that the service has given by the time the cycle settles.
  unfoldable pub tick :
      PowerAnswer
      → Outcome
      → PowerAnswer
      → Float
      → ℕ
      → NavidaStepBridge
      → List Output × NavidaStepBridge
  tick answer outcome after now now_ns b =
      let (powered, b1) = prepare answer outcome now now_ns b in
      let (driven, b2) = drive_on after now now_ns b1 in
      let (asked, b3) = next_action now now_ns (note_fault b2) in (powered ++ (driven ++ asked), b3)
