-- ===== src/Bench/Live/Stopping.antt =====
-- bench/src/isaac_rvln/live_transport.py: the loop of an episode, the stop after it and what is seen
-- until the stop is confirmed.
use rvln.Prelude.{
  ◌≡◌, refl, ap, ◌∙◌, Bool, true, Option-cases, List, [], ◌∷◌, ◌++◌, ℕ, ok, Bool-cases, inl, inr,
  arith, if◌then◌else◌,
}
use rvln.Float.{Float, Arith, lt, abs, max}
use rvln.Float.Literals.{lit_0_001, lit_0_5}
use rvln.Bench.Calls.{Call, pure, ◌>>=◌}
use rvln.Bench.Live.{Episode}
use rvln.Bench.Live.Running.{
  follower_stop, asked, timeout, LiveRun, Round, Script, spin_once, spin_until, set_bool,
  set_reason, read, is_stopped, start_up, drive, run_loop, conclude, finish, body, start_run,
}
use rvln.Bench.Live.Keeping.{bind-ok, spin_event-Keeps, set_bool-Keeps}

module _ (m : Arith) (decodes : List ℕ → Bool) where
  -- The turns of a loop that looks at nothing.
  unfoldable pub spin_rounds : List Round → Call LiveRun Unit
  spin_rounds [] = pure tt
  spin_rounds (round ∷ rest) = spin_once m decodes round >>= λ u. spin_rounds rest

  -- The episode up to the end of its loop.
  abbrev pub up_to_stop : Float × Float → Float → Script → Call LiveRun Unit
  up_to_stop goal tolerance w = start_up m decodes w >>= λ u.
      set_reason timeout >>= λ v. drive m decodes goal tolerance w.rounds

  spin_once-actions :
      (round : Round) (s : LiveRun) → (spin_once m decodes round s).1.actions ≡ s.actions
  unfolding spin_once
  spin_once-actions round s = elim (Option-cases round.event) [
    | inl idle ↦ ground (arith, idle)
    | inr (ev, e) ↦ ground (arith, e, (spin_event-Keeps m decodes ev s).1)
  ]

  -- A condition was met at the end of some turn, in the state that the loop leaves.
  record Met (condition : Float → Episode → Bool) (rounds : List Round) (s s' : LiveRun)
      : Type 0 where
    passed : List Round
    last : Round
    rest : List Round
    split : rounds ≡ passed ++ last ∷ rest
    spun : spin_rounds (passed ++ last ∷ []) s ≡ (ok tt, s')
    met : condition last.now s'.node ≡ true
    same : s'.actions ≡ s.actions

  split_cons :
      (round : Round) (rounds passed : List Round) (last : Round) (rest : List Round)
      → rounds ≡ passed ++ last ∷ rest
      → round ∷ rounds ≡ (round ∷ passed) ++ last ∷ rest
  split_cons round rounds passed last rest h = ap (λ (l : List Round). round ∷ l) h

  spin_until-Met :
      (condition : Float → Episode → Bool) (rounds : List Round) (s s' : LiveRun)
      → spin_until m decodes condition rounds s ≡ (ok true, s')
      → Met condition rounds s s'
  unfolding spin_until spin_rounds
  spin_until-Met condition [] s s' h = absurd (ground arith)
  spin_until-Met condition (round ∷ rounds) s s' h =
      let (u, t, turned, looked) =
        bind-ok (spin_once m decodes round)
          (λ u. read (condition round.now) >>= λ met.
            if met then pure true else (pure tt >>= λ v. spin_until m decodes condition rounds))
          s s' true h in
      let kept : t.actions ≡ s.actions = ground (arith, turned, spin_once-actions round s) in
      elim (Bool-cases (condition round.now t.node)) [
        | inl is_met ↦
            let ends : t ≡ s' = ground (arith, is_met, looked) in
            record {
              passed = [];
              last = round;
              rest = rounds;
              split = refl;
              spun = ground (arith, turned, ends);
              met = ground (arith, is_met, ends);
              same = ground (arith, kept, ends);
            }
        | inr unmet ↦
            let later : Met condition rounds t s' =
              spin_until-Met condition rounds t s' (ground (arith, unmet, looked)) in
            record {
              passed = round ∷ later.passed;
              last = later.last;
              rest = later.rest;
              split = split_cons round rounds later.passed later.last later.rest later.split;
              spun = ground (arith, turned, later.spun);
              met = later.met;
              same = later.same ∙ kept;
            }
      ]

  -- What the loop of an episode came to, the stop after it and what was then seen.
  record Looped (goal : Float × Float) (tolerance : Float) (w : Script) (s : LiveRun) (c : Bool)
      (s' : LiveRun) : Type 0 where
    driven : LiveRun
    stopping : LiveRun
    success : Bool
    drove :
        drive m decodes goal tolerance w.rounds (record s { stop_reason = timeout })
        ≡ (ok tt, driven)
    asked_stop : set_bool m decodes follower_stop true w.stop driven ≡ (ok success, stopping)
    looked : spin_until m decodes (is_stopped m decodes) w.confirm_rounds stopping ≡ (ok c, s')

  run_loop-Looped :
      (goal : Float × Float) (tolerance : Float) (w : Script) (s : LiveRun) (c : Bool)
      (s' : LiveRun)
      → run_loop m decodes goal tolerance w s ≡ (ok c, s')
      → Looped goal tolerance w s c s'
  unfolding run_loop
  run_loop-Looped goal tolerance w s c s' h =
      let begun : LiveRun = record s { stop_reason = timeout } in
      let look : Call LiveRun Bool = spin_until m decodes (is_stopped m decodes) w.confirm_rounds in
      let (u, driven, drove, after) =
        bind-ok (drive m decodes goal tolerance w.rounds)
          (λ u. set_bool m decodes follower_stop true w.stop >>= λ b. look) begun s' c h in
      let (b, stopping, asked_stop, looked) =
        bind-ok (set_bool m decodes follower_stop true w.stop) (λ b. look) driven s' c after in
      record {
        driven = driven;
        stopping = stopping;
        success = b;
        drove = drove;
        asked_stop = asked_stop;
        looked = looked;
      }

  set_bool-asked :
      (s s' : LiveRun) (w : Script) (b : Bool)
      → set_bool m decodes follower_stop true w.stop s ≡ (ok b, s')
      → s'.actions ≡ s.actions ++ asked follower_stop true ∷ []
  unfolding set_bool
  set_bool-asked s s' w b h =
      let (kept, same) = set_bool-Keeps m decodes follower_stop true w.stop s in
      elim (Bool-cases w.stop.available) [
        | inl there ↦ ground (arith, there, same, h)
        | inr gone ↦ absurd (ground (arith, gone, h))
      ]

  -- The robot was seen to stand still after the loop: when the loop had ended, in the state
  -- `driven`, the follower was asked to stop; after the turns `passed` and `last` that follow, in
  -- the state `seen`, where nothing else was asked, the last command was less than 0.5 s old and
  -- zero up to 0.001; and with that the episode was concluded.
  pub record WasStill (goal : Float × Float) (tolerance : Float) (w : Script) (n : Episode)
      : Type 0 where
    pub driven : LiveRun
    pub stopping : LiveRun
    pub seen : LiveRun
    pub passed : List Round
    pub last : Round
    pub rest : List Round
    pub success : Bool
    pub drove : up_to_stop goal tolerance w (start_run m decodes n) ≡ (ok tt, driven)
    pub stopped : set_bool m decodes follower_stop true w.stop driven ≡ (ok success, stopping)
    pub split : w.confirm_rounds ≡ passed ++ last ∷ rest
    pub spun : spin_rounds (passed ++ last ∷ []) stopping ≡ (ok tt, seen)
    pub actions : seen.actions ≡ driven.actions ++ asked follower_stop true ∷ []
    pub recent : lt (m.sub last.now seen.node.last_cmd_at) lit_0_5 ≡ true
    pub at_rest : lt (max (abs seen.node.last_cmd.0) (abs seen.node.last_cmd.1)) lit_0_001 ≡ true
    pub concluded :
        body m decodes goal tolerance w (start_run m decodes n) ≡ conclude m decodes w true seen

  is_stopped-parts :
      (now : Float) (n : Episode)
      → is_stopped m decodes now n ≡ true
      → (lt (m.sub now n.last_cmd_at) lit_0_5 ≡ true)
        × (lt (max (abs n.last_cmd.0) (abs n.last_cmd.1)) lit_0_001 ≡ true)
  unfolding is_stopped
  is_stopped-parts now n h = (ground arith, ground arith)

  pub run_loop-WasStill :
      (goal : Float × Float) (tolerance : Float) (w : Script) (n : Episode) (t seen : LiveRun)
      → start_up m decodes w (start_run m decodes n) ≡ (ok tt, t)
      → run_loop m decodes goal tolerance w t ≡ (ok true, seen)
      → WasStill goal tolerance w n
  unfolding body finish
  run_loop-WasStill goal tolerance w n t seen started h =
      let loop : Looped goal tolerance w t true seen =
        run_loop-Looped goal tolerance w t true seen h in
      let met : Met (is_stopped m decodes) w.confirm_rounds loop.stopping seen =
        spin_until-Met (is_stopped m decodes) w.confirm_rounds loop.stopping seen loop.looked in
      let (recent, at_rest) = is_stopped-parts met.last.now seen.node met.met in
      record {
        driven = loop.driven;
        stopping = loop.stopping;
        seen = seen;
        passed = met.passed;
        last = met.last;
        rest = met.rest;
        success = loop.success;
        drove = ground (arith, started, loop.drove);
        stopped = loop.asked_stop;
        split = met.split;
        spun = met.spun;
        actions =
            met.same ∙ set_bool-asked loop.driven loop.stopping w loop.success loop.asked_stop;
        recent = recent;
        at_rest = at_rest;
        concluded = ground (arith, started, h);
      }
