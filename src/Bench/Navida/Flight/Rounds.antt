-- ===== src/Bench/Navida/Flight/Rounds.antt =====
-- bench/src/bench/live_navida.py: the timer, and runs of callbacks, keep the request in flight
-- coherent with the cycle.
use rvln.Prelude.{
  subst, sym, Bool-cases, ℕ, ◌≡◌, refl, true, false, not, ◌||◌, none, some, List, [], ◌∷◌, arith,
  Option-cases, inl, inr, ok,
}
use rvln.Float.{Float, Arith}
use rvln.Bench.Step as Step
use rvln.Bench.Step.{
  Pose, Action, Request, StepCycle, begin_settling, cancel, confirm_motor_disabled, fail, start,
  accept, is_pending, request, can_request,
}
use rvln.Bench.Step.Commanding.{command}
use rvln.Bench.Navida.{init, NavidaStepBridge, PowerAnswer, power_tick, is_ready}
use rvln.Bench.Navida.Callbacks.{on_goal, on_observation, on_forced_stop, text_of}
use rvln.Bench.Navida.Ticking.{
  Outcome, unfinished, answered, failed, finish_request, request_done, request_failed, reply_taken,
  prepare, drive_on, note_fault, start_queued, submit, ask_with, ask, next_action, tick,
  is_unfinished,
}
use rvln.Bench.Navida.Events.{
  Event, goal_event, observation_event, odom_event, stop_event, tick_event, handle, run,
}
use rvln.Bench.Navida.Flight.{
  IsCoherent, power_tick-IsCoherent, stop_power-IsCoherent, dropped-IsCoherent, Drops-IsCoherent,
  set_goal-IsCoherent, on_odom-IsCoherent, command-Drops,
}

module _ (m : Arith) where
  -- Once a finished inference is taken, the cycle waits for nothing.
  request_done-pending :
      (outcome : Outcome) (token : Request) (now : Float) (now_ns : ℕ) (b : NavidaStepBridge)
      → b.request_token ≡ some token
      → is_unfinished m outcome ≡ false
      → IsCoherent b
      → (request_done m outcome token now now_ns
          (record b { future = false; request_token = none })).cycle.pending
        ≡ none
  unfolding request_done request_failed reply_taken accept is_pending fail cancel begin_settling
      start
  request_done-pending unfinished token now now_ns b e u h = cc
  request_done-pending (failed reason) token now now_ns b e u h = ground arith
  request_done-pending (answered reply) token now now_ns b e u h = ground arith

  request_done-kept :
      (outcome : Outcome) (token : Request) (now : Float) (now_ns : ℕ) (b : NavidaStepBridge)
      → ((request_done m outcome token now now_ns b).future ≡ b.future)
        × ((request_done m outcome token now now_ns b).request_token ≡ b.request_token)
  unfolding request_done request_failed reply_taken
  request_done-kept unfinished token now now_ns b = (refl, refl)
  request_done-kept (failed reason) token now now_ns b = ground arith
  request_done-kept (answered reply) token now now_ns b = ground arith

  finish_request-IsCoherent :
      (outcome : Outcome) (now : Float) (now_ns : ℕ) (b : NavidaStepBridge)
      → IsCoherent b
      → IsCoherent (finish_request m outcome now now_ns b)
  unfolding finish_request
  finish_request-IsCoherent outcome now now_ns b h =
      elim (Bool-cases (not b.future || is_unfinished m outcome)) [
        | inl early ↦ rw (early, finish_request) h
        | inr done ↦ elim (Option-cases b.request_token) [
          | inl missing ↦
              let e : finish_request m outcome now now_ns b ≡ b =
                simp (done, missing, finish_request) in
              subst IsCoherent (sym e) h
          | inr (token, held) ↦
              let taken : NavidaStepBridge = record b { future = false; request_token = none } in
              let after = request_done m outcome token now now_ns taken in
              let e : finish_request m outcome now now_ns b ≡ after =
                simp (done, held, finish_request) in
              let kept = request_done-kept outcome token now now_ns taken in
              let gone : after.cycle.pending ≡ none =
                request_done-pending outcome token now now_ns b held (ground arith) h in
              subst IsCoherent (sym e) (ground (arith, kept, gone))
        ]
      ]

  prepare-IsCoherent :
      (answer : PowerAnswer) (outcome : Outcome) (now : Float) (now_ns : ℕ) (b : NavidaStepBridge)
      → IsCoherent b
      → IsCoherent (prepare m answer outcome now now_ns b).1
  unfolding prepare
  prepare-IsCoherent answer outcome now now_ns b h =
      let powered = (power_tick m answer now now_ns b).1 in
      let kept = power_tick-IsCoherent m answer now now_ns b h in
      ground (arith, kept, finish_request-IsCoherent outcome now now_ns powered kept)

  drive_on-IsCoherent :
      (after : PowerAnswer) (now : Float) (now_ns : ℕ) (b : NavidaStepBridge)
      → IsCoherent b
      → IsCoherent (drive_on m after now now_ns b).1
  unfolding drive_on
  drive_on-IsCoherent after now now_ns b h =
      let moved : NavidaStepBridge = record b {
        cycle = (command m now now_ns (is_ready b.power_state) b.cycle).1;
      } in
      let kept : IsCoherent moved =
        Drops-IsCoherent m b moved refl refl
          (command-Drops m now now_ns (is_ready b.power_state) b.cycle) h in
      ground (arith, kept, stop_power-IsCoherent m after now now_ns moved kept)

  note_fault-IsCoherent : (b : NavidaStepBridge) → IsCoherent b → IsCoherent (note_fault m b)
  unfolding note_fault
  note_fault-IsCoherent b h = record { paired = h.paired; tracked = h.tracked; current = h.current }

  start_queued-IsCoherent :
      (now : Float) (now_ns : ℕ) (b : NavidaStepBridge)
      → IsCoherent b
      → IsCoherent (start_queued m now now_ns b).1
  unfolding start_queued start begin_settling
  start_queued-IsCoherent now now_ns b h = ground arith

  ask-IsCoherent :
      (now : Float) (now_ns : ℕ) (b : NavidaStepBridge)
      → IsCoherent b
      → IsCoherent (ask m now now_ns b).1
  unfolding ask ask_with request submit
  ask-IsCoherent now now_ns b h = ground arith

  tick-IsCoherent :
      (answer : PowerAnswer) (outcome : Outcome) (after : PowerAnswer) (now : Float) (now_ns : ℕ)
      (b : NavidaStepBridge)
      → IsCoherent b
      → IsCoherent (tick m answer outcome after now now_ns b).1
  unfolding tick next_action
  tick-IsCoherent answer outcome after now now_ns b h =
      let b1 = (prepare m answer outcome now now_ns b).1 in
      let h1 = prepare-IsCoherent answer outcome now now_ns b h in
      let b2 = (drive_on m after now now_ns b1).1 in
      let h2 = note_fault-IsCoherent b2 (drive_on-IsCoherent after now now_ns b1 h1) in
      let b3 = (start_queued m now now_ns (note_fault m b2)).1 in
      let h3 = start_queued-IsCoherent now now_ns (note_fault m b2) h2 in
      ground (arith, h3, ask-IsCoherent now now_ns b3 h3)

  handle-IsCoherent :
      (event : Event) (b : NavidaStepBridge) → IsCoherent b → IsCoherent (handle m event b).1
  unfolding handle on_goal on_observation on_forced_stop
  handle-IsCoherent (goal_event g answer now now_ns) b h =
      set_goal-IsCoherent m (text_of g) true answer now now_ns b h
  handle-IsCoherent (observation_event msg answer now now_ns) b h =
      let k = set_goal-IsCoherent m (text_of msg.goal) false answer now now_ns b h in
      record { paired = k.paired; tracked = k.tracked; current = k.current }
  handle-IsCoherent (odom_event msg answer now now_ns) b h =
      on_odom-IsCoherent m msg answer now now_ns b h
  handle-IsCoherent (stop_event request answer now now_ns) b h =
      let freed : NavidaStepBridge = record b {
        cycle = cancel request now_ns now b.cycle;
        queue = [];
      } in
      stop_power-IsCoherent m answer now now_ns freed
        (dropped-IsCoherent m b freed refl refl (unfold cancel begin_settling in refl) h)
  handle-IsCoherent (tick_event answer outcome after now now_ns) b h =
      tick-IsCoherent answer outcome after now now_ns b h

  run-IsCoherent_from :
      (events : List Event) (b : NavidaStepBridge) → IsCoherent b → IsCoherent (run m events b)
  unfolding run
  run-IsCoherent_from [] b h = h
  run-IsCoherent_from (event ∷ events) b h =
      run-IsCoherent_from events (handle m event b).1 (handle-IsCoherent event b h)

  -- From a new bridge on, after any callbacks in any order: an inference is in flight exactly when
  -- its token is kept, and a request that the cycle waits for is that token, of the current
  -- generation.
  pub run-IsCoherent :
      (max_v max_w now : Float) (cycle : StepCycle) (events : List Event)
      → Step.init max_v max_w ≡ ok cycle
      → IsCoherent (run m events (init cycle now))
  unfolding Step.init
  run-IsCoherent max_v max_w now cycle events e =
      run-IsCoherent_from events (init cycle now) (ground arith)
