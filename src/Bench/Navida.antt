-- ===== src/Bench/Navida.antt =====
-- bench/src/bench/live_navida.py: the state of `NavidaStepBridge` and the motor power. A callback
-- reads the clocks once in the model. The service's answer and the inference's outcome, as they
-- stand when they are looked at, are arguments; events that are only printed are left out.
pub mod Callbacks
pub mod Ticking
pub mod Events
pub mod Limits
pub mod Safety
pub mod Flight
pub mod Shutdown
use rvln.Prelude.{
  ℕ, Bool, true, false, not, ◌&&◌, ◌||◌, String, Option, none, some, List, [], ◌∷◌, ◌++◌,
  if◌then◌else◌, Result, ok,
}
use rvln.Float.{Float, Arith, zero_f, lt, le}
use rvln.Float.Literals.{lit_2}
use rvln.Edge.Messages.{Observation}
use rvln.Bench.Step.{Pose, Action, Request, StepCycle, fail, confirm_motor_disabled}

pub data PowerState : Type 0 where
  stop disabling off enabling verify ready : PowerState

-- What the call of /motor_power has come to: not done, its success, or an error that is caught.
pub data PowerAnswer : Type 0 where
  waiting accepted rejected : PowerAnswer
  broken : String → PowerAnswer

pub record NavidaStepBridge : Type 0 where
  pub cycle : StepCycle
  pub goal : Option String
  pub latest : Option Observation
  pub future : Bool
  pub request_token : Option Request
  pub queue : List Action
  pub last_fault : Option String
  pub power_future : Bool
  pub power_state : PowerState
  pub power_at : Float
  pub power_pose : Option Pose
  pub power_stamp : ℕ
  pub power_stable : ℕ

abbrev pub init : StepCycle → Float → NavidaStepBridge
init cycle now = record {
  cycle = cycle;
  goal = none;
  latest = none;
  future = false;
  request_token = none;
  queue = [];
  last_fault = none;
  power_future = false;
  power_state = stop;
  power_at = now;
  power_pose = none;
  power_stamp = 0;
  power_stable = 0;
}

-- A Twist, a call of /motor_power, and an inference handed to the worker.
pub data Output : Type 0 where
  twist : Float × Float → Output
  power_request : Bool → Output
  infer : ℕ → String → List ℕ → Output

abbrev pub standstill : Output
standstill = twist (zero_f, zero_f)

abbrev pub is_off : PowerState → Bool
is_off off = true
is_off s = false

abbrev pub is_stop : PowerState → Bool
is_stop stop = true
is_stop s = false

abbrev pub is_verify : PowerState → Bool
is_verify verify = true
is_verify s = false

abbrev pub is_ready : PowerState → Bool
is_ready ready = true
is_ready s = false

abbrev pub is_waiting : PowerAnswer → Bool
is_waiting waiting = true
is_waiting a = false

unfoldable pub power_failed : String → Float → ℕ → NavidaStepBridge → List Output × NavidaStepBridge
power_failed reason now now_ns b =
    (standstill ∷ [], record b { cycle = fail reason now now_ns b.cycle; power_state = stop })

-- The answer is a success: the state goes on.
unfoldable pub power_done : Float → ℕ → NavidaStepBridge → NavidaStepBridge
power_done now now_ns b = elim b.power_state [
  | disabling ↦ record b { power_state = off; cycle = confirm_motor_disabled now_ns now b.cycle }
  | enabling ↦ record b {
    power_state = verify;
    power_at = now;
    power_pose = none;
    power_stamp = now_ns;
    power_stable = 0;
  }
  | _ ↦ b
]

-- The future is taken and looked at.
unfoldable pub power_answered :
    PowerAnswer → Float → ℕ → NavidaStepBridge → List Output × NavidaStepBridge
unfolding power_failed power_done
power_answered waiting now now_ns b =
    power_failed "motor power timeout" now now_ns (record b { power_future = false })
power_answered rejected now now_ns b =
    power_failed "motor power rejected" now now_ns (record b { power_future = false })
power_answered (broken reason) now now_ns b =
    power_failed reason now now_ns (record b { power_future = false })
power_answered accepted now now_ns b =
    ([], power_done now now_ns (record b { power_future = false }))

-- The time-out of the standstill after the motor is enabled.
unfoldable pub power_verified : Arith → Float → ℕ → NavidaStepBridge → NavidaStepBridge
power_verified m now now_ns b =
    if is_verify b.power_state && lt lit_2 (m.sub now b.power_at)
    then record b {
      cycle = fail "post-enable stop not confirmed" now now_ns b.cycle;
      power_state = stop;
    }
    else b

-- The next call of the service, if one is due.
unfoldable pub power_call : Float → NavidaStepBridge → List Output × NavidaStepBridge
power_call now b =
    let enable = is_off b.power_state && not b.cycle.settling in
    if is_stop b.power_state || enable
    then (
      standstill ∷ power_request enable ∷ [],
      record b {
        power_at = now;
        power_state = if enable then enabling else disabling;
        power_future = true;
      },
    )
    else ([], b)

-- From the time-out on.
unfoldable pub power_rest : Arith → Float → ℕ → NavidaStepBridge → List Output × NavidaStepBridge
unfolding power_verified power_call
power_rest m now now_ns b = power_call now (power_verified m now now_ns b)

unfoldable pub power_tick :
    Arith → PowerAnswer → Float → ℕ → NavidaStepBridge → List Output × NavidaStepBridge
power_tick m answer now now_ns b =
    if b.power_future
    then (if is_waiting answer && le (m.sub now b.power_at) lit_2
        then ([], b)
        else (let (out, b') = power_answered answer now now_ns b in
            let (rest, b'') = power_rest m now now_ns b' in (out ++ rest, b'')))
    else power_rest m now now_ns b

unfoldable pub hold_power : NavidaStepBridge → NavidaStepBridge
hold_power b = elim b.power_state [ stop ↦ b | disabling ↦ b | _ ↦ record b { power_state = stop } ]

unfoldable pub stop_power :
    Arith → PowerAnswer → Float → ℕ → NavidaStepBridge → List Output × NavidaStepBridge
unfolding hold_power
stop_power m answer now now_ns b =
    let (out, b') = power_tick m answer now now_ns (hold_power b) in (standstill ∷ out, b')
