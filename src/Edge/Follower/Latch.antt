-- ===== src/Edge/Follower/Latch.antt =====
-- What the hold latch does to the commands.
use rvln.Prelude.{
  ℕ, ◌≡◌, refl, ap, ap₂, ◌∙◌, Bool, true, false, some, List, [], ◌∷◌, map, String, if◌then◌else◌,
  Result, Error, sym, subst, Result-cases, Option-cases, Bool-cases, inl, inr, ok, raise, arith,
}
use rvln.Float.{Float, Arith}
use rvln.Edge.Messages.{FramePath}
use rvln.Edge.Waypoint.{WaypointPd, TwistCmd, PathPoint, zero_cmd, compute}
use rvln.Edge.Follower.{
  PathFollower, init, to_point, mismatched, on_path, on_forced_stop, is_moving, choose,
  log_motion_transition, log_and_publish, tick,
}

pub data Event : Type 0 where
  path_event : FramePath → Event
  stop_event : Bool → Event
  tick_event : ℕ → Event

-- The commands that a run publishes, one for each round of the timer.
unfoldable pub run : Arith → List Event → PathFollower → List (Result TwistCmd)
run m [] s = []
run m (path_event msg ∷ events) s = run m events (on_path msg s)
run m (stop_event request ∷ events) s = run m events (on_forced_stop request s).1
run m (tick_event now ∷ events) s = (tick m now s).0 ∷ run m events (tick m now s).1

-- A controller with no latch: it knows the last path and whether it is stopped.
pub record Plain : Type 0 where
  pub pp : WaypointPd
  pub expected_frame : String
  pub path : List PathPoint
  pub stop : Bool

unfoldable pub plain_run : Arith → List Event → Plain → List (Result TwistCmd)
plain_run m [] p = []
plain_run m (path_event msg ∷ events) p =
    plain_run m events
      (record p { path = if mismatched msg p.expected_frame then [] else map to_point msg.poses })
plain_run m (stop_event request ∷ events) p = plain_run m events (record p { stop = request })
plain_run m (tick_event now ∷ events) p =
    (if p.stop then ok zero_cmd else compute m p.pp p.path) ∷ plain_run m events p

abbrev pub forget : PathFollower → Plain
forget s = record {
  pp = s.pp;
  expected_frame = s.expected_frame;
  path = s.latest;
  stop = s.forced_stop;
}

-- A held command is the one that the current path gives, unless a new path waits.
pub record Latched (m : Arith) (s : PathFollower) : Type 0 where
  pub same :
      (cmd : TwistCmd)
      → s.held_cmd ≡ some cmd
      → s.path_new ≡ false
      → (compute m s.pp s.latest ≡ ok cmd) × (is_moving s.cmd_eps cmd ≡ true)

log-keeps :
    (m : Arith) (cmd : TwistCmd) (s : PathFollower)
    → Latched m s
    → (forget (log_motion_transition cmd s).1 ≡ forget s)
      × Latched m (log_motion_transition cmd s).1
unfolding log_motion_transition
log-keeps m cmd s h = (ground arith, record { same = λ c p q. ground (arith, h.same c) })

module _ (m : Arith) (now : ℕ) (cmd : TwistCmd) (s : PathFollower) (h : Latched m s)
    (e : compute m s.pp s.latest ≡ ok cmd) where
  choose-cmd : (choose now cmd s).0 ≡ cmd
  unfolding choose
  choose-cmd = elim (Option-cases s.held_cmd) [
    | inl free ↦ ground (arith, free)
    | inr (kept, holding) ↦ ground (arith, holding, h.same kept, e)
  ]

  choose-forget : forget (choose now cmd s).1 ≡ forget s
  unfolding choose
  choose-forget = ground arith

  choose-Latched : Latched m (choose now cmd s).1
  unfolding choose
  choose-Latched = record { same = λ c p q. ground (arith, h.same c, e) }

module _ (m : Arith) (now : ℕ) (s : PathFollower) where
  tick_stopped : s.forced_stop ≡ true → tick m now s ≡ log_and_publish (zero_cmd, s)
  unfolding tick
  tick_stopped e = ground (arith, e)

  tick_ok :
      (cmd : TwistCmd)
      → s.forced_stop ≡ false
      → compute m s.pp s.latest ≡ ok cmd
      → tick m now s ≡ log_and_publish (choose now cmd s)
  unfolding tick
  tick_ok cmd e c = ground (arith, e, c)

  tick_raise :
      (err : Error)
      → s.forced_stop ≡ false
      → compute m s.pp s.latest ≡ raise err
      → tick m now s ≡ (raise err, s)
  unfolding tick
  tick_raise err e c = ground (arith, e, c)

  -- what a round of the timer publishes, and that it keeps the path, the stop and the invariant
  abbrev Round : Result TwistCmd × PathFollower → Type 0
  Round r =
      (r.0 ≡ (if s.forced_stop then ok zero_cmd else compute m s.pp s.latest))
      × (forget r.1 ≡ forget s)
      × Latched m r.1

  tick-Round : Latched m s → Round (tick m now s)
  tick-Round h = elim (Bool-cases s.forced_stop) [
    | inl stopped ↦
        let (same, latched) = log-keeps m zero_cmd s h in
        subst Round (sym (tick_stopped stopped)) (ground (arith, stopped), same, latched)
    | inr free ↦ elim (Result-cases (compute m s.pp s.latest)) [
      | inl (cmd, e) ↦
          let s' = (choose now cmd s).1 in
          let (same, latched) =
            log-keeps m (choose now cmd s).0 s' (choose-Latched m now cmd s h e) in
          subst Round (sym (tick_ok cmd free e)) (
            ground (arith, choose-cmd m now cmd s h e, free, e),
            same ∙ choose-forget m now cmd s h e,
            latched,
          )
      | inr (err, e) ↦ subst Round (sym (tick_raise err free e)) (ground (arith, free, e), refl, h)
    ]
  ]

init-Latched :
    (m : Arith) (pp : WaypointPd) (frame : String) (timeout : ℕ) (eps : Float)
    → Latched m (init pp frame timeout eps)
init-Latched m pp frame timeout eps = record { same = λ c p q. cc }

on_path-ok :
    (m : Arith) (msg : FramePath) (s : PathFollower)
    → (forget (on_path msg s) ≡ record (forget s) {
      path = if mismatched msg s.expected_frame then [] else map to_point msg.poses;
    })
      × Latched m (on_path msg s)
unfolding on_path
on_path-ok m msg s = (ground arith, record { same = λ c p q. ground arith })

run-plain_run :
    (m : Arith) (events : List Event) (s : PathFollower)
    → Latched m s
    → run m events s ≡ plain_run m events (forget s)
unfolding run plain_run
run-plain_run m [] s h = refl
run-plain_run m (path_event msg ∷ events) s h =
    let (same, latched) = on_path-ok m msg s in
    run-plain_run m events (on_path msg s) latched ∙ ap (plain_run m events) same
run-plain_run m (stop_event request ∷ events) s h =
    run-plain_run m events (on_forced_stop request s).1
      (unfold on_forced_stop in record { same = λ c p q. cc })
    ∙ ap (plain_run m events) (unfold on_forced_stop in refl)
run-plain_run m (tick_event now ∷ events) s h =
    let (published, same, latched) = tick-Round m now s h in
    ap₂ ◌∷◌ published
      (run-plain_run m events (tick m now s).1 latched ∙ ap (plain_run m events) same)

-- Through any paths, forced stops and resumptions, at any times of the timer and with any hold
-- time-out, the follower publishes exactly what a controller without the latch publishes: zero
-- while it is forced to stop, and otherwise the command that the last path gives, where a path in
-- another frame counts as empty. The hold latch never changes a command.
pub run-plain :
    (m : Arith) (pp : WaypointPd) (frame : String) (timeout : ℕ) (eps : Float) (events : List Event)
    → run m events (init pp frame timeout eps)
      ≡ plain_run m events (forget (init pp frame timeout eps))
run-plain m pp frame timeout eps events =
    run-plain_run m events (init pp frame timeout eps) (init-Latched m pp frame timeout eps)
