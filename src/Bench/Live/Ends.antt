-- ===== src/Bench/Live/Ends.antt =====
-- bench/src/isaac_rvln/live_transport.py: how a live episode ends.
use rvln.Prelude.{
  ℕ, ◌≡◌, refl, sym, subst, ap, ◌∙◌, Bool, true, false, List, [], ◌∷◌, ◌++◌, length, length-append,
  Result, Error, ok, raise, runtime_error, Result-cases, inl, inr, arith,
}
use rvln.Float.{Float, Arith}
use rvln.Bench.Live.{Episode, note_fault, caught, shutdown}
use rvln.Bench.Live.Running.{
  Client, follower_stop, motor, asked, Reason, goal_tolerance, LiveRun, Script, Answer, set_bool,
  confirm, finish, run_loop, conclude, body, shut_down, after_body, after_shutdown, start_run, run,
  start_up, update, end_trace,
}
use rvln.Bench.Live.Keeping.{Keeps, Keeps-trans, bind-ok, set_bool-Keeps}
use rvln.Bench.Live.Stopping.{WasStill, run_loop-WasStill}

module _ (m : Arith) (decodes : List ℕ → Bool) where
  set_bool-gone :
      (client : Client) (value : Bool) (a : Answer) (s : LiveRun)
      → a.available ≡ false
      → set_bool m decodes client value a s ≡ (raise runtime_error, s)
  unfolding set_bool
  set_bool-gone client value a s h = ground arith

  -- After a stop that was answered, the motor is asked.
  shut_down-both :
      (w : Script) (s t : LiveRun) (b : Bool)
      → set_bool m decodes follower_stop true w.last_stop s ≡ (ok b, t)
      → (shut_down m decodes w s).1 ≡ (set_bool m decodes motor false w.motor_off t).1
  unfolding shut_down
  shut_down-both w s t b h = elim (Result-cases (set_bool m decodes motor false w.motor_off t).0) [
    | inr (err, e) ↦ ground arith
    | inl (b', e) ↦ ground arith
  ]

  shut_down-first :
      (w : Script) (s t : LiveRun) (err : Error)
      → set_bool m decodes follower_stop true w.last_stop s ≡ (raise err, t)
      → (shut_down m decodes w s).1 ≡ t
  unfolding shut_down
  shut_down-first w s t err h = ground arith

  shut_down-Keeps : (w : Script) (s : LiveRun) → Keeps s (shut_down m decodes w s).1
  shut_down-Keeps w s =
      let t : LiveRun = (set_bool m decodes follower_stop true w.last_stop s).1 in
      let (one, acted) = set_bool-Keeps m decodes follower_stop true w.last_stop s in
      let (two, turned) = set_bool-Keeps m decodes motor false w.motor_off t in
      elim (Result-cases (set_bool m decodes follower_stop true w.last_stop s).0) [
        | inr (err, e) ↦ subst (Keeps s) (sym (shut_down-first w s t err (ground arith))) one
        | inl (b, e) ↦
            subst (Keeps s) (sym (shut_down-both w s t b (ground arith)))
              (Keeps-trans s t (set_bool m decodes motor false w.motor_off t).1 one two)
      ]

  shut_down-actions :
      (w : Script) (s : LiveRun) (b : Bool)
      → (set_bool m decodes follower_stop true w.last_stop s).0 ≡ ok b
      → w.last_stop.available ≡ true
      → w.motor_off.available ≡ true
      → (shut_down m decodes w s).1.actions
        ≡ (s.actions ++ asked follower_stop true ∷ []) ++ asked motor false ∷ []
  shut_down-actions w s b h there powered =
      let t : LiveRun = (set_bool m decodes follower_stop true w.last_stop s).1 in
      let (one, acted) = set_bool-Keeps m decodes follower_stop true w.last_stop s in
      let (two, turned) = set_bool-Keeps m decodes motor false w.motor_off t in
      let ends = shut_down-both w s t b (ground arith) in
      ap (λ (u : LiveRun). u.actions) ends ∙ ground (arith, acted, turned)

  -- A reached goal that counts was followed by a confirmed stop.
  confirm-reached :
      (c : Bool) (s s' : LiveRun)
      → confirm m decodes c s ≡ (ok tt, s')
      → s'.stop_reason ≡ goal_tolerance
      → (c ≡ true) × (s'.confirmed_stop ≡ true)
  unfolding confirm
  confirm-reached c s s' h reached = by_reason s.stop_reason refl
    where
      by_reason : (r : Reason) → s.stop_reason ≡ r → (c ≡ true) × (s'.confirmed_stop ≡ true)
      by_reason goal_tolerance e = (ground arith, ground arith)
      by_reason r e = (ground arith, ground arith)

  conclude-reached :
      (c : Bool) (w : Script) (s s' : LiveRun)
      → conclude m decodes w c s ≡ (ok tt, s')
      → s'.stop_reason ≡ goal_tolerance
      → (c ≡ true) × (s'.confirmed_stop ≡ true)
  unfolding conclude
  conclude-reached c w s s' h reached =
      let (u, t, e, ended) =
        bind-ok (confirm m decodes c) (λ u. update (end_trace m decodes w.end)) s s' tt h in
      let (sure, settled) = confirm-reached c s t e (ground (arith, reached)) in
      (sure, ground (arith, settled))

  body-reached :
      (goal : Float × Float) (tolerance : Float) (w : Script) (n : Episode) (s' : LiveRun)
      → body m decodes goal tolerance w (start_run m decodes n) ≡ (ok tt, s')
      → s'.stop_reason ≡ goal_tolerance
      → (s'.confirmed_stop ≡ true) × WasStill m decodes goal tolerance w n
  unfolding body finish
  body-reached goal tolerance w n s' h reached =
      let s : LiveRun = start_run m decodes n in
      let (u, t, started, finished) =
        bind-ok (start_up m decodes w) (λ u. finish m decodes goal tolerance w) s s' tt h in
      let (c, seen, looped, concluded) =
        bind-ok (run_loop m decodes goal tolerance w) (conclude m decodes w) t s' tt finished in
      let (sure, settled) = conclude-reached c w seen s' concluded reached in
      let sought : run_loop m decodes goal tolerance w t ≡ (ok true, seen) =
        ground (arith, looped, sure) in
      (settled, run_loop-WasStill m decodes goal tolerance w n t seen started sought)

  after_shutdown-Keeps : (r : Result (Unit {0}) × LiveRun) → Keeps r.1 (after_shutdown m decodes r)
  unfolding after_shutdown
  after_shutdown-Keeps (ok u, s) = record { reason = refl; confirmed = refl; errors = omega arith }
  after_shutdown-Keeps (raise e, s) = record {
    reason = refl;
    confirmed = refl;
    errors = omega (arith, length-append s.node.errors (shutdown e ∷ []));
  }

  run-Keeps :
      (goal : Float × Float) (tolerance : Float) (w : Script) (n : Episode)
      → Keeps
          (after_body m decodes (body m decodes goal tolerance w (start_run m decodes n)))
          (run m decodes goal tolerance w n)
  unfolding run
  run-Keeps goal tolerance w n =
      let s : LiveRun =
        after_body m decodes (body m decodes goal tolerance w (start_run m decodes n)) in
      Keeps-trans s (shut_down m decodes w s).1 (run m decodes goal tolerance w n)
        (shut_down-Keeps w s) (after_shutdown-Keeps (shut_down m decodes w s))

  -- A reached goal is only reported with a confirmed stop: whatever the world does, when an episode
  -- ends without an error and with the goal reached as its reason, then its stop counts as
  -- confirmed, and the robot was seen to stand still: after the loop had ended the follower was
  -- asked to stop, and in some turn of the node after that, with nothing else asked, the last
  -- command was less than 0.5 s old and zero up to 0.001.
  pub run-confirmed :
      (goal : Float × Float) (tolerance : Float) (w : Script) (n : Episode)
      → (run m decodes goal tolerance w n).stop_reason ≡ goal_tolerance
      → (run m decodes goal tolerance w n).node.errors ≡ []
      → ((run m decodes goal tolerance w n).confirmed_stop ≡ true)
        × WasStill m decodes goal tolerance w n
  unfolding after_body
  run-confirmed goal tolerance w n reached clean =
      let r : Result (Unit {0}) × LiveRun =
        body m decodes goal tolerance w (start_run m decodes n) in
      let k = run-Keeps goal tolerance w n in
      let none_left : length ((run m decodes goal tolerance w n).node.errors) ≡ 0 =
        ap length clean in
      elim (Result-cases r.0) [
        | inr (err, e) ↦
            let noted = length-append r.1.node.errors (caught err ∷ []) in
            absurd (ground (arith, noted, k.errors))
        | inl (u, e) ↦
            let kept : after_body m decodes r ≡ r.1 = ground arith in
            let reason : r.1.stop_reason ≡ goal_tolerance = ground (arith, k.reason) in
            let (settled, still) = body-reached goal tolerance w n r.1 (ground arith) reason in
            (ground (arith, k.confirmed, settled), still)
      ]

  -- Whatever happened before, an episode ends by stopping the follower and then switching the motor
  -- off, when both services are there and no exception escapes while the first answers.
  pub run-stops :
      (goal : Float × Float) (tolerance : Float) (w : Script) (n : Episode) (s : LiveRun) (b : Bool)
      → after_body m decodes (body m decodes goal tolerance w (start_run m decodes n)) ≡ s
      → (set_bool m decodes follower_stop true w.last_stop s).0 ≡ ok b
      → w.last_stop.available ≡ true
      → w.motor_off.available ≡ true
      → (run m decodes goal tolerance w n).actions
        ≡ (s.actions ++ asked follower_stop true ∷ []) ++ asked motor false ∷ []
  unfolding run after_shutdown
  run-stops goal tolerance w n s b before answered there powered =
      ground (arith, shut_down-actions w s b answered there powered)

  -- But when the service that stops the follower is gone at the end, the motor is not switched off:
  -- nothing more is asked than what the episode asked until then, which may end with the motor on,
  -- and an error of the shutdown is noted.
  pub run-motor_left :
      (goal : Float × Float) (tolerance : Float) (w : Script) (n : Episode) (s : LiveRun)
      → after_body m decodes (body m decodes goal tolerance w (start_run m decodes n)) ≡ s
      → w.last_stop.available ≡ false
      → ((run m decodes goal tolerance w n).actions ≡ s.actions)
        × ((run m decodes goal tolerance w n).node ≡ note_fault (shutdown runtime_error) s.node)
  unfolding run after_shutdown shut_down
  run-motor_left goal tolerance w n s before gone =
      let refused = set_bool-gone follower_stop true w.last_stop s gone in
      (ground (arith, refused), ground (arith, refused))
