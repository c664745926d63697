-- ===== src/Bench/Episode/Ends.antt =====
-- bench/src/bench/episode.py: when an episode returns.
use rvln.Prelude.{
  ℕ, ◌+◌, zero, suc, ◌≡◌, ◌<◌, refl, true, false, String, List, str_eq, Result, ok, Bool-cases, inl,
  inr, arith,
}
use rvln.Float.{Float}
use rvln.Bench.Episode.{
  EpisodeRequest, EpisodeSimulator, Policy, Measurements, start_measurements, note_action,
  note_position, is_allowed, choose_action, run_frames, run_episode,
}

-- The call returns, whatever its state.
abbrev pub Returns : {A S : Type 0} → Result A × S → Type 0
Returns {A = A} c = (a : A) × (c.0 ≡ ok a)

module _ {S P : Type 0} (sim : EpisodeSimulator S) (policy : Policy P) (ep : EpisodeRequest) where
  -- The frame chooses an action, and after one that goes on the simulator moves to where `I` holds.
  pub record Goes (I : ℕ → S × P → Type 0) (frame_id : ℕ) (w : S × P) : Type 0 where
    pub action : String
    pub acts : (choose_action sim policy ep frame_id w).0 ≡ ok action
    pub moves :
        let w' = (choose_action sim policy ep frame_id w).1 in
        let moved = sim.apply action w'.0 in
        str_eq action ep.terminal_action ≡ false → Returns moved × I (frame_id + 1) (moved.1, w'.1)

  -- When every frame leads from `I` to `I`, the frames return.
  pub run_frames-Returns :
      (I : ℕ → S × P → Type 0)
      → ((frame_id : ℕ) (w : S × P) → I frame_id w → Goes I frame_id w)
      → (left frame_id : ℕ) (r : Measurements) (w : S × P) → I frame_id w
      → Returns (run_frames sim policy ep left frame_id r w)
  unfolding run_frames
  run_frames-Returns I go zero frame_id r w i = (r, refl)
  run_frames-Returns I go (suc left) frame_id r w i =
      let g = go frame_id w i in
      let w' = (choose_action sim policy ep frame_id w).1 in
      let acts = g.acts in
      elim (Bool-cases (str_eq g.action ep.terminal_action)) [
        | inl last ↦ (record (note_action g.action r) { stopped = true }, ground arith)
        | inr going ↦
            let ((position, moved), kept) = g.moves going in
            let r' : Measurements = note_position position (note_action g.action r) in
            let after : S × P = ((sim.apply g.action w'.0).1, w'.1) in
            let (end, ran) = run_frames-Returns I go left (frame_id + 1) r' after kept in
            (end, ground arith)
      ]

  pub run_episode-frames :
      (max_steps : ℕ) (w : S × P) (position : List Float)
      → 0 < max_steps
      → is_allowed ep.allowed_actions ep.terminal_action ≡ true
      → Returns (policy.reset ep.episode_id w.1)
      → (sim.reset ep w.0).0 ≡ ok position
      → (run_episode sim policy ep max_steps w)
        ≡ run_frames sim policy ep max_steps 0
            (start_measurements position)
            ((sim.reset ep w.0).1, (policy.reset ep.episode_id w.1).1)
  unfolding run_episode
  run_episode-frames max_steps w position some_steps terminal (u, ready) placed = ground arith
