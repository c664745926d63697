-- ===== src/Bench/Episode/Shape.antt =====
-- bench/src/bench/episode.py: what an episode that returns has measured.
use rvln.Prelude.{
  ℕ, ◌+◌, zero, suc, ◌≡◌, ◌≤◌, refl, sym, ap, subst, ◌∙◌, Bool, true, false, String, List, [], ◌∷◌,
  ◌++◌, length, length-append, str_eq, if◌then◌else◌, Result, ok, raise, Result-cases, Bool-cases,
  inl, inr, arith,
}
use mathlib.Core.List.{append_assoc, append-nil}
use rvln.Float.{Float}
use rvln.Bench.Episode.{
  EpisodeRequest, EpisodeSimulator, Policy, Measurements, start_measurements, note_action,
  note_position, is_allowed, choose_action, run_frames, run_episode,
}

-- The actions of an episode with so many frames left: allowed ones, either as many as the frames, none
-- of them the terminal action, or fewer with the terminal action as the last.
pub data Runs (ep : EpisodeRequest) : ℕ → List String → Bool → Type 0 where
  out_of_frames : Runs ep 0 [] false
  stops :
      {n : ℕ} {a : String}
      → is_allowed ep.allowed_actions a ≡ true
      → str_eq a ep.terminal_action ≡ true
      → Runs ep (suc n) (a ∷ []) true
  goes_on :
      {n : ℕ} {a : String} {rest : List String} {stopped : Bool}
      → is_allowed ep.allowed_actions a ≡ true
      → str_eq a ep.terminal_action ≡ false
      → Runs ep n rest stopped
      → Runs ep (suc n) (a ∷ rest) stopped

pub length-Runs :
    (ep : EpisodeRequest) (n : ℕ) (actions : List String) (stopped : Bool)
    → Runs ep n actions stopped
    → length actions ≤ n
length-Runs ep zero [] false out_of_frames = omega arith
length-Runs ep zero [] true h = elim h [ ]
length-Runs ep zero (a ∷ rest) s h = elim h [ ]
length-Runs ep (suc n) [] s h = elim h [ ]
length-Runs ep (suc n) (a ∷ []) true (stops h e) = omega arith
length-Runs ep (suc n) (a ∷ rest) s (goes_on h e r) = omega (arith, length-Runs ep n rest s r)

abbrev pub missing : Bool → ℕ
missing stopped = if stopped then 1 else 0

-- What the frames that were left add to the measurements: an action each, and a position for each
-- action but the terminal one.
pub record Extends (ep : EpisodeRequest) (left : ℕ) (r r' : Measurements) : Type 0 where
  pub added : List String
  pub actions : r'.actions ≡ r.actions ++ added
  pub shape : Runs ep left added r'.stopped
  pub positions : length r'.positions + missing r'.stopped ≡ length r.positions + length added

abbrev pub Measures : EpisodeRequest → ℕ → Measurements → Result Measurements → Type 0
Measures ep left r (ok r') = Extends ep left r r'
Measures ep left r (raise e) = Unit

-- One frame more in front.
after_frame :
    (ep : EpisodeRequest) (left : ℕ) (a : String) (position : List Float) (r : Measurements)
    (out : Result Measurements)
    → is_allowed ep.allowed_actions a ≡ true
    → str_eq a ep.terminal_action ≡ false
    → Measures ep left (note_position position (note_action a r)) out
    → Measures ep (suc left) r out
after_frame ep left a position r (raise e) allowed going h = tt
after_frame ep left a position r (ok r') allowed going h = record {
  added = a ∷ h.added;
  actions = h.actions ∙ append_assoc r.actions (a ∷ []) h.added;
  shape = goes_on allowed going h.shape;
  positions = omega (arith, h.positions, length-append r.positions (position ∷ []));
}

module _ {S P : Type 0} (sim : EpisodeSimulator S) (policy : Policy P) (ep : EpisodeRequest) where
  choose_action-allowed :
      (frame_id : ℕ) (w : S × P) (a : String)
      → (choose_action sim policy ep frame_id w).0 ≡ ok a
      → is_allowed ep.allowed_actions a ≡ true
  unfolding choose_action
  choose_action-allowed frame_id w a e = ground arith

  run_frames-Measures :
      (left frame_id : ℕ) (r : Measurements) (w : S × P)
      → r.stopped ≡ false
      → Measures ep left r (run_frames sim policy ep left frame_id r w).0
  unfolding run_frames
  run_frames-Measures zero frame_id r w e = record {
    added = [];
    actions = sym (append-nil r.actions);
    shape = subst (Runs ep 0 []) (sym e) out_of_frames;
    positions = ground arith;
  }
  run_frames-Measures (suc left) frame_id r w e =
      let call = run_frames sim policy ep (suc left) frame_id r w in
      let chosen = choose_action sim policy ep frame_id w in
      elim (Result-cases chosen.0) [
        | inr (err, refused) ↦
            let goes : call.0 ≡ raise err = ground arith in
            subst (Measures ep (suc left) r) (sym goes) tt
        | inl (a, acts) ↦
            let allowed = choose_action-allowed frame_id w a acts in
            elim (Bool-cases (str_eq a ep.terminal_action)) [
              | inl last ↦
                  let goes : call.0 ≡ ok (record (note_action a r) { stopped = true }) =
                    ground arith in
                  subst (Measures ep (suc left) r) (sym goes) (record {
                    added = a ∷ [];
                    actions = refl;
                    shape = stops allowed last;
                    positions = omega arith;
                  })
              | inr going ↦
                  let applied = sim.apply a chosen.1.0 in
                  elim (Result-cases applied.0) [
                    | inr (err, broken) ↦
                        let goes : call.0 ≡ raise err = ground arith in
                        subst (Measures ep (suc left) r) (sym goes) tt
                    | inl (position, moved) ↦
                        let r' : Measurements = note_position position (note_action a r) in
                        let w' : S × P = (applied.1, chosen.1.1) in
                        let goes : call.0 ≡ (run_frames sim policy ep left (frame_id + 1) r' w').0 =
                          ground arith in
                        subst (Measures ep (suc left) r) (sym goes) (
                          after_frame ep left a position r
                            (run_frames sim policy ep left (frame_id + 1) r' w').0 allowed going
                            (run_frames-Measures left (frame_id + 1) r' w' e))
                  ]
            ]
      ]

  -- An episode that returns has run its frames from some first position.
  frames_of :
      (max_steps : ℕ) (w : S × P) (r : Measurements)
      → (run_episode sim policy ep max_steps w).0 ≡ ok r
      → (position : List Float) × (w' : S × P) × ((run_frames sim policy ep max_steps 0
            (start_measurements position)
            w').0
          ≡ ok r)
  unfolding run_episode
  frames_of max_steps w r e =
      let policy_reset = policy.reset ep.episode_id w.1 in
      let sim_reset = sim.reset ep w.0 in
      elim (Result-cases policy_reset.0) [
        | inr (err, refused) ↦ ground arith
        | inl (u, ready) ↦ elim (Result-cases sim_reset.0) [
          | inr (err, broken) ↦ ground arith
          | inl (position, placed) ↦ (position, (sim_reset.1, policy_reset.1), ground arith)
        ]
      ]

  -- An episode that returns has at most `max_steps` actions, all of them allowed, and a position for
  -- the start and for each action but the terminal one. It is stopped exactly when its last action is
  -- the terminal one; no other action is; and when it is not stopped it has `max_steps` actions.
  pub run_episode-Runs :
      (max_steps : ℕ) (w : S × P) (r : Measurements)
      → (run_episode sim policy ep max_steps w).0 ≡ ok r
      → Runs ep max_steps r.actions r.stopped
        × (length r.actions ≤ max_steps)
        × (length r.positions + missing r.stopped ≡ suc (length r.actions))
  run_episode-Runs max_steps w r e =
      let (position, w', ran) = frames_of max_steps w r e in
      let h : Extends ep max_steps (start_measurements position) r =
        subst (Measures ep max_steps (start_measurements position)) ran
          (run_frames-Measures max_steps 0 (start_measurements position) w' refl) in
      let shape =
        subst (λ (actions : List String). Runs ep max_steps actions r.stopped) (sym h.actions)
          h.shape in
      (
        shape,
        length-Runs ep max_steps r.actions r.stopped shape,
        omega (arith, h.positions, ap length h.actions),
      )
