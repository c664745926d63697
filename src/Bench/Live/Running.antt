-- ===== src/Bench/Live/Running.antt =====
-- bench/src/isaac_rvln/live_transport.py, `spin_until`, `set_bool` and `run`: a live episode from
-- the gated start to the shutdown. What the world does is an input: the rounds of each loop, of
-- which a list has those that begin before the loop's deadline while rclpy is up, and the answers of
-- the services. Checking the hashes and resetting the server come before.
use rvln.Prelude.{
  ℕ, Bool, true, false, ◌&&◌, ltb, leb, Option, none, some, is_some, List, [], ◌∷◌, ◌++◌, length,
  if◌then◌else◌, Result, ok, raise, type_error, runtime_error,
}
use rvln.Float.{Float, Arith, zero_f, lt, le, abs, max}
use rvln.Float.Literals.{lit_0_5, lit_0_001}
use rvln.Bench.Calls.{Call, pure, ◌>>=◌, ◌>>◌}
use rvln.Bench.Live.{Episode, Event, TraceRow, handle, note_fault, caught, shutdown, row_at}

pub data Client : Type 0 where
  follower_stop motor : Client

-- The calls of services and the publication of the goal, in their order.
pub data Action : Type 0 where
  asked : Client → Bool → Action
  goal_published : Action

pub data Reason : Type 0 where
  startup_failure timeout goal_tolerance remote_error unconfirmed_stop : Reason

-- One turn of a loop: the callback that runs in it, and the time after it.
pub record Round : Type 0 where
  pub event : Option Event
  pub now : Float

-- Whether the service is there, the callbacks that run during the call, and its `success`, unless
-- the time-out comes first.
pub record Answer : Type 0 where
  pub available : Bool
  pub events : List Event
  pub success : Option Bool

pub record LiveRun : Type 0 where
  pub node : Episode
  pub actions : List Action
  pub stop_reason : Reason
  pub confirmed_stop : Bool

-- The world's part of a run, in the order in which the code meets it.
pub record Script : Type 0 where
  pub pose_rounds : List Round
  pub stop_available : Bool
  pub gate : Answer
  pub embedding_rounds : List Round
  pub start : Float
  pub motor_on : Answer
  pub release : Answer
  pub rounds : List Round
  pub stop : Answer
  pub confirm_rounds : List Round
  pub end : Float
  pub last_stop : Answer
  pub motor_off : Answer

abbrev pub act : Action → Call LiveRun Unit
act a s = (ok tt, record s { actions = s.actions ++ (a ∷ []) })

abbrev pub update : (Episode → Episode) → Call LiveRun Unit
update f s = (ok tt, record s { node = f s.node })

abbrev pub read : {A : Type 0} → (Episode → A) → Call LiveRun A
read f s = (ok (f s.node), s)

abbrev pub demand : Bool → Call LiveRun Unit
demand c s = (if c then ok tt else raise runtime_error, s)

abbrev pub set_reason : Reason → Call LiveRun Unit
set_reason r s = (ok tt, record s { stop_reason = r })

abbrev pub has_pose : Float → Episode → Bool
has_pose now n = is_some n.last_pose

abbrev pub has_published : Float → Episode → Bool
has_published now n = ltb 0 n.published

module _ (m : Arith) (decodes : List ℕ → Bool) where
  unfoldable pub spin_event : Event → Call LiveRun Unit
  spin_event ev s = let (r, out, n) = handle m decodes ev s.node in (r, record s { node = n })

  unfoldable pub spin_events : List Event → Call LiveRun Unit
  spin_events [] = pure tt
  spin_events (ev ∷ rest) = spin_event ev >>= λ u. spin_events rest

  unfoldable pub spin_once : Round → Call LiveRun Unit
  spin_once round = elim round.event [ none ↦ pure tt | some ev ↦ spin_event ev ]

  unfoldable pub spin_until : (Float → Episode → Bool) → List Round → Call LiveRun Bool
  spin_until condition [] = pure false
  spin_until condition (round ∷ rest) = spin_once round >>= λ u.
      read (condition round.now) >>= λ met.
      if met then pure true else (pure tt >>= λ v. spin_until condition rest)

  -- `bool(future.done() and future.result() and future.result().success)`
  abbrev pub is_success : Option Bool → Bool
  is_success none = false
  is_success (some b) = b

  unfoldable pub set_bool : Client → Bool → Answer → Call LiveRun Bool
  set_bool client value a = do
    demand a.available
    act (asked client value)
    spin_events a.events
    pure (is_success a.success)

  -- The command is recent, and is zero.
  unfoldable pub is_stopped : Float → Episode → Bool
  is_stopped now n =
      lt (m.sub now n.last_cmd_at) lit_0_5
      && lt (max (abs n.last_cmd.0) (abs n.last_cmd.1)) lit_0_001

  abbrev pub append_row : TraceRow → Episode → Episode
  append_row row n = record n { trace = n.trace ++ (row ∷ []) }

  abbrev pub zero_row : Float × Float × Float → TraceRow
  zero_row (x, y, yaw) = record {
    t_sec = zero_f;
    x = x;
    y = y;
    yaw = yaw;
    cmd_v = zero_f;
    cmd_w = zero_f;
  }

  -- The episode starts where the robot stands.
  unfoldable pub start_trace : Float → Call LiveRun Unit
  start_trace now s = elim s.node.last_pose [
    | none ↦ (raise type_error, record s { node = record s.node { started_at = some now } })
    | some pose ↦ (
      ok tt,
      record s { node = append_row (zero_row pose) (record s.node { started_at = some now }) },
    )
  ]

  -- Up to the release of the follower.
  unfoldable pub start_up : Script → Call LiveRun Unit
  start_up w = do
    posed ← spin_until has_pose w.pose_rounds
    demand posed
    demand w.stop_available
    gated ← set_bool follower_stop true w.gate
    demand gated
    act goal_published
    embedded ← spin_until has_published w.embedding_rounds
    demand embedded
    start_trace w.start
    powered ← set_bool motor true w.motor_on
    demand powered
    released ← set_bool follower_stop false w.release
    demand released

  abbrev pub distance_to : Float × Float → Float × Float × Float → Float
  distance_to (gx, gy) (x, y, yaw) = m.hypot (m.sub x gx) (m.sub y gy)

  -- Why the loop of the episode is left in a state, if it is.
  unfoldable pub stop_for : Float × Float → Float → Episode → Option Reason
  stop_for goal tolerance n = elim n.last_pose [
    | none ↦ none
    | some pose ↦
        if le (distance_to goal pose) tolerance
        then some goal_tolerance
        else if leb 5 (length n.errors)
        then some remote_error
        else none
  ]

  unfoldable pub drive : Float × Float → Float → List Round → Call LiveRun Unit
  drive goal tolerance [] = pure tt
  drive goal tolerance (round ∷ rest) = spin_once round >>= λ u.
      read (stop_for goal tolerance) >>= λ why. elim why [
        | some reason ↦ set_reason reason
        | none ↦ drive goal tolerance rest
      ]

  -- The stop is confirmed, or else a reached goal does not count.
  unfoldable pub confirm : Bool → Call LiveRun Unit
  confirm confirmed s = elim s.stop_reason [
    | goal_tolerance ↦ (
      ok tt,
      record s {
        confirmed_stop = confirmed;
        stop_reason = if confirmed then goal_tolerance else unconfirmed_stop;
      },
    )
    | other ↦ (ok tt, record s { confirmed_stop = confirmed })
  ]

  unfoldable pub end_trace : Float → Episode → Episode
  end_trace now n = elim n.started_at [
    | none ↦ n
    | some start ↦ elim n.last_pose [
      | none ↦ n
      | some pose ↦ append_row (row_at (m.sub now start) pose n) n
    ]
  ]

  -- From the release on: the loop, the stop, and whether it is confirmed.
  unfoldable pub run_loop : Float × Float → Float → Script → Call LiveRun Bool
  run_loop goal tolerance w = do
    set_reason timeout
    drive goal tolerance w.rounds
    stopped ← set_bool follower_stop true w.stop
    spin_until is_stopped w.confirm_rounds

  unfoldable pub conclude : Script → Bool → Call LiveRun Unit
  conclude w confirmed = confirm confirmed >>= λ u. update (end_trace w.end)

  unfoldable pub finish : Float × Float → Float → Script → Call LiveRun Unit
  finish goal tolerance w = run_loop goal tolerance w >>= conclude w

  unfoldable pub body : Float × Float → Float → Script → Call LiveRun Unit
  body goal tolerance w = start_up w >>= λ u. finish goal tolerance w

  unfoldable pub shut_down : Script → Call LiveRun Unit
  shut_down w = do
    stopped ← set_bool follower_stop true w.last_stop
    off ← set_bool motor false w.motor_off
    pure tt

  -- An exception of the body, and one of the shutdown, are kept as errors.
  unfoldable pub after_body : Result (Unit {0}) × LiveRun → LiveRun
  after_body (ok u, s) = s
  after_body (raise e, s) = record s { node = note_fault (caught e) s.node }

  unfoldable pub after_shutdown : Result (Unit {0}) × LiveRun → LiveRun
  after_shutdown (ok u, s) = s
  after_shutdown (raise e, s) = record s { node = note_fault (shutdown e) s.node }

  abbrev pub start_run : Episode → LiveRun
  start_run n = record {
    node = n;
    actions = [];
    stop_reason = startup_failure;
    confirmed_stop = false;
  }

  unfoldable pub run : Float × Float → Float → Script → Episode → LiveRun
  run goal tolerance w n =
      after_shutdown (shut_down w (after_body (body goal tolerance w (start_run n))))
