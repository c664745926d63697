-- ===== src/Bench/Session/Acting.antt =====
-- bench/src/isaac_r2r/policy_server.py: the requests of a `PolicySession`, and their routes.
use rvln.Prelude.{
  ℕ, ◌+◌, false, not, ◌&&◌, ◌||◌, ◌==◌, String, none, some, List, str_eq, if◌then◌else◌, Result, ok,
  raise, value_error, ◌>>=◌,
}
use rvln.Edge.Json.{pos, Members, text, integer, no_member, member, get}
use rvln.Bench.Session.{
  Vision, Model, PolicySession, text_of, tokens_of, is_active, is_frame, is_unchanged, require,
  bytes_at, prepare_rgbd, action_name,
}

-- What a frame that is accepted is committed with.
pub record Turn (R : Type 0) : Type 0 where
  pub instruction : String
  pub tokens : List ℕ
  pub action_id : ℕ
  pub action : String
  pub state : R

unfoldable pub reset_reply : String → String → Members
reset_reply episode_id policy_id =
    member "episode_id" (text episode_id) (member "policy_id" (text policy_id) no_member)

unfoldable pub act_reply : String → ℕ → String → Members
act_reply episode_id frame_id action =
    member "episode_id" (text episode_id)
      (member "frame_id" (integer (pos frame_id)) (member "action" (text action) no_member))

unfoldable pub commit : {R : Type 0} → Turn R → PolicySession R → PolicySession R
commit t p = record p {
  instruction = some t.instruction;
  tokens = some t.tokens;
  previous_action = some t.action_id;
  state = some t.state;
  next_frame = p.next_frame + 1;
  stopped = t.action_id == 0;
}

module _ {R : Type 0} (vision : Vision) (model : Model R) where
  unfoldable pub reset_parts : Members → Result (String × R)
  reset_parts payload = do
    episode_id ← text_of (get "episode_id" payload)
    state ← model.reset
    ok (episode_id, state)

  unfoldable pub reset : Members → PolicySession R → Result Members × PolicySession R
  unfolding reset_reply
  reset payload p = elim (reset_parts payload) [
    | raise e ↦ (raise e, p)
    | ok (episode_id, state) ↦ (
      ok (reset_reply episode_id p.policy_id),
      record p {
        episode_id = some episode_id;
        next_frame = 0;
        instruction = none;
        tokens = none;
        previous_action = none;
        state = some state;
        stopped = false;
      },
    )
  ]

  -- The checks, the images and the model, up to the commit.
  unfoldable pub act_parts : Members → PolicySession R → Result (Turn R)
  act_parts payload p = do
    active ← require (is_active (get "episode_id" payload) p.episode_id)
    next ← require (is_frame (get "frame_id" payload) p.next_frame && not p.stopped)
    instruction ← text_of (get "instruction" payload)
    tokens ← tokens_of (get "instruction_tokens" payload)
    same ← require (p.next_frame == 0 || is_unchanged instruction tokens p.instruction p.tokens)
    jpeg ← bytes_at vision (get "jpeg_base64" payload)
    depth ← bytes_at vision (get "depth_f32_base64" payload)
    images ← prepare_rgbd vision jpeg depth (get "depth_width" payload) (get "depth_height" payload)
    acted ← model.act images.0 images.1 tokens p.previous_action p.state
    named ← action_name acted.0
    ok (record {
      instruction = instruction;
      tokens = tokens;
      action_id = named.0;
      action = named.1;
      state = acted.1;
    })

  -- The reply names the active episode and its frame, which are the payload's.
  unfoldable pub act : Members → PolicySession R → Result Members × PolicySession R
  unfolding act_reply commit
  act payload p = elim p.episode_id [
    | none ↦ (raise value_error, p)
    | some episode_id ↦ elim (act_parts payload p) [
      | raise e ↦ (raise e, p)
      | ok t ↦ (ok (act_reply episode_id p.next_frame t.action), commit t p)
    ]
  ]

  -- The handler with a payload that is an object; a route that does not exist gets the status 404,
  -- an error the status 422.
  unfoldable pub do_post : String → Members → PolicySession R → Result Members × PolicySession R
  unfolding reset act
  do_post path payload p =
      if str_eq path "/reset"
      then reset payload p
      else if str_eq path "/act"
      then act payload p
      else (raise value_error, p)
