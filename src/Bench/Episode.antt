-- ===== src/Bench/Episode.antt =====
-- bench/src/bench/episode.py: an episode of a simulator and a policy, each a record of operations
-- on its own state. A call that raises ends the episode with its exception.
pub mod Shape
pub mod Ends
use rvln.Prelude.{
  ℕ, ◌+◌, ◌*◌, zero, suc, Bool, true, false, not, ◌&&◌, ◌||◌, ◌==◌, String, Option, none, some,
  List, [], ◌∷◌, ◌++◌, length, str_eq, if◌then◌else◌, Result, ok, raise, value_error,
}
use rvln.Bench.Calls.{Call, pure, raise_if, on_left, on_right, ◌>>=◌, ◌>>◌}
use rvln.Float.{Float}
use rvln.Edge.Json.{ℤ, to_size}

-- The depth image: its bytes, its width and its height.
pub record DepthImage : Type 0 where
  pub f32 : List ℕ
  pub width : ℤ
  pub height : ℤ

pub record Observation : Type 0 where
  pub jpeg : List ℕ
  pub depth : Option DepthImage

-- `Observation(jpeg, depth_f32, depth_width, depth_height)`, with `__post_init__`
unfoldable pub make_observation :
    List ℕ → Option (List ℕ) → Option ℤ → Option ℤ → Result Observation
make_observation jpeg none none none = ok (record { jpeg = jpeg; depth = none })
make_observation jpeg (some f32) (some width) (some height) =
    if to_size width == 0 || to_size height == 0
    then raise value_error
    else if not (length f32 == to_size width * to_size height * 4)
    then raise value_error
    else ok (record {
      jpeg = jpeg;
      depth = some (record { f32 = f32; width = width; height = height });
    })
make_observation jpeg f32 width height = raise value_error

pub record EpisodeRequest : Type 0 where
  pub episode_id : String
  pub instruction : String
  pub allowed_actions : List String
  pub terminal_action : String

pub record EpisodeSimulator (S : Type 0) : Type 0 where
  pub reset : EpisodeRequest → Call S (List Float)
  pub observe : Call S Observation
  pub apply : String → Call S (List Float)

pub record Policy (P : Type 0) : Type 0 where
  pub reset : String → Call P Unit
  pub act : String → ℕ → String → Observation → Call P String

pub record Measurements : Type 0 where
  pub positions : List (List Float)
  pub actions : List String
  pub stopped : Bool

-- `action in episode.allowed_actions`
unfoldable pub is_allowed : List String → String → Bool
is_allowed [] action = false
is_allowed (a ∷ rest) action = str_eq a action || is_allowed rest action

abbrev pub start_measurements : List Float → Measurements
start_measurements position = record { positions = position ∷ []; actions = []; stopped = false }

-- `actions.append(action)`, `positions.append(position)`
abbrev pub note_action : String → Measurements → Measurements
note_action action r = record r { actions = r.actions ++ (action ∷ []) }

abbrev pub note_position : List Float → Measurements → Measurements
note_position position r = record r { positions = r.positions ++ (position ∷ []) }

module _ {S P : Type 0} (sim : EpisodeSimulator S) (policy : Policy P) (ep : EpisodeRequest) where
  -- The action of one frame, checked.
  unfoldable pub choose_action : ℕ → Call (S × P) String
  choose_action frame_id = do
    observation ← on_left sim.observe
    action ← on_right (policy.act ep.episode_id frame_id ep.instruction observation)
    raise_if (not (is_allowed ep.allowed_actions action))
    pure action

  -- The frames from `frame_id` on, as many as are left.
  unfoldable pub run_frames : ℕ → ℕ → Measurements → Call (S × P) Measurements
  run_frames zero frame_id r = pure r
  run_frames (suc left) frame_id r = do
    action ← choose_action frame_id
    if str_eq action ep.terminal_action
        then pure (record (note_action action r) { stopped = true })
        else (on_left (sim.apply action) >>= λ position.
            run_frames left (frame_id + 1) (note_position position (note_action action r)))

  unfoldable pub run_episode : ℕ → Call (S × P) Measurements
  run_episode max_steps = do
    raise_if (max_steps == 0)
    raise_if (not (is_allowed ep.allowed_actions ep.terminal_action))
    on_right (policy.reset ep.episode_id)
    position ← on_left (sim.reset ep)
    run_frames max_steps 0 (start_measurements position)
