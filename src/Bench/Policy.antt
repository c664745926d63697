-- ===== src/Bench/Policy.antt =====
-- bench/src/bench/episode.py, `HttpPolicy`, and bench/src/isaac_r2r/policy.py, `R2RHttpPolicy`: a
-- policy behind HTTP. Sending a payload to a route and reading the object that comes back is an
-- operation on the state behind it.
use rvln.Prelude.{
  ℕ, Bool, false, not, ◌||◌, ◌==◌, String, Option, none, some, List, [], ◌∷◌, str_eq, if◌then◌else◌,
  Result, ok, raise, value_error,
}
use rvln.Float.{Float}
use rvln.Edge.Json.{
  pos, Json, Items, Members, text, integer, boolean, number, array, no_member, member, no_item,
  item, get,
}
use rvln.Bench.Calls.{Call, pure, lift, raise_if, ◌>>=◌, ◌>>◌}
use rvln.Bench.Episode.{Observation, DepthImage, Policy}

-- `response.get(key) == value`, for a text and for a frame ID
unfoldable pub is_text : Option Json → String → Bool
is_text (some (text t)) s = str_eq t s
is_text v s = false

-- `float_is` is Python's `==` of a double and an integer.
unfoldable pub is_number : (Float → ℕ → Bool) → Option Json → ℕ → Bool
is_number float_is (some (integer (pos n))) k = n == k
is_number float_is (some (boolean b)) k = (if b then 1 else 0) == k
is_number float_is (some (number f)) k = float_is f k
is_number float_is v k = false

-- `response.get("action")`, a text that is not empty
unfoldable pub action_of : Option Json → Result String
action_of (some (text a)) = if str_eq a "" then raise value_error else ok a
action_of v = raise value_error

unfoldable pub items_of : List ℕ → Items
items_of [] = no_item
items_of (n ∷ rest) = item (integer (pos n)) (items_of rest)

unfoldable pub reset_payload : String → Members
reset_payload episode_id = member "episode_id" (text episode_id) no_member

-- `b64` is `base64.b64encode(...).decode("ascii")`.
module _ (b64 : List ℕ → String) where
  -- The members of the depth image, and the tokens when there are any.
  unfoldable pub depth_members : Option DepthImage → Members → Members
  depth_members none rest = rest
  depth_members (some d) rest =
      member "depth_f32_base64" (text (b64 d.f32))
        (member "depth_width" (integer d.width) (member "depth_height" (integer d.height) rest))

  unfoldable pub token_members : Option (List ℕ) → Members
  token_members none = no_member
  token_members (some tokens) = member "instruction_tokens" (array (items_of tokens)) no_member

  unfoldable pub act_payload : Option (List ℕ) → String → ℕ → String → Observation → Members
  unfolding depth_members token_members
  act_payload tokens episode_id frame_id instruction o = member "episode_id" (text episode_id) (
      member "frame_id" (integer (pos frame_id)) (
        member "instruction" (text instruction) (
          member "jpeg_base64" (text (b64 o.jpeg)) (depth_members o.depth (token_members tokens)))))

  module _ {W : Type 0} (float_is : Float → ℕ → Bool)
      (request : String → Members → Call W Members) where
    -- `policy_id` is checked when the policy has one.
    unfoldable pub http_reset : Option String → String → Call W Unit
    http_reset policy_id episode_id = do
      response ← request "/reset" (reset_payload episode_id)
      raise_if (not (is_text (get "episode_id" response) episode_id))
      elim policy_id [
        | none ↦ pure tt
        | some id ↦ raise_if (not (is_text (get "policy_id" response) id))
      ]

    unfoldable pub http_act : Option (List ℕ) → String → ℕ → String → Observation → Call W String
    http_act tokens episode_id frame_id instruction o = do
      response ← request "/act" (act_payload tokens episode_id frame_id instruction o)
      raise_if (
          not (is_text (get "episode_id" response) episode_id)
          || not (is_number float_is (get "frame_id" response) frame_id))
      lift (action_of (get "action" response))

    -- `R2RHttpPolicy(url, tokens, policy_id)`; without both, it is `HttpPolicy(url)`.
    abbrev pub http_policy : Option (List ℕ) → Option String → Policy W
    http_policy tokens policy_id = record { reset = http_reset policy_id; act = http_act tokens }
