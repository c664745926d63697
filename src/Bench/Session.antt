-- ===== src/Bench/Session.antt =====
-- bench/src/isaac_r2r/policy_server.py: `PolicySession`, one episode at a time, and its handler; and
-- the checks of bench/src/isaac_r2r/cma_inputs.py. The handler's lock makes a request one step.
pub mod Acting
pub mod Replays
pub mod Serves
pub mod Completes
use rvln.Prelude.{
  ℕ, ◌+◌, Bool, true, false, not, ◌&&◌, ◌||◌, ◌==◌, ltb, String, Option, none, some, is_some, List,
  [], ◌∷◌, length, get_elem?, str_eq, if◌then◌else◌, Result, ok, raise, value_error, type_error,
  ◌>>=◌,
}
use rvln.Float.{Float, zero_f, eq}
use rvln.Edge.Json.{
  ℤ, pos, negsuc, Json, Items, Members, text, boolean, integer, number, array, object, null,
  no_member, member, no_item, item, get,
}
use rvln.Bench.Policy.{is_text, is_number}

-- ACTIONS
abbrev pub actions : List String
actions = "stop" ∷ "forward" ∷ "left" ∷ "right" ∷ []

-- What the server takes of base64, of Python's `==` of a double and an integer, of PIL (an image's
-- width, its height, and itself at 224 by 224) and of numpy (the depth, normalised).
pub record Vision : Type 0 where
  pub b64decode : Json → Result (List ℕ)
  pub float_is : Float → ℕ → Bool
  pub open_image : List ℕ → Result (ℕ × ℕ × Result (List ℕ))
  pub normalize : List ℕ → List Float

-- The model, on its recurrent state; an action that is not an `int` is none.
pub record Model (R : Type 0) : Type 0 where
  pub reset : Result R
  pub act : List ℕ → List Float → List ℕ → Option ℕ → Option R → Result (Option ℤ × R)

pub record PolicySession (R : Type 0) : Type 0 where
  pub policy_id : String
  pub episode_id : Option String
  pub next_frame : ℕ
  pub instruction : Option String
  pub tokens : Option (List ℕ)
  pub previous_action : Option ℕ
  pub state : Option R
  pub stopped : Bool

abbrev pub cma_vocab_size : ℕ
cma_vocab_size = 2504

-- `token == 0`
unfoldable pub is_zero : Json → Bool
is_zero (boolean b) = not b
is_zero (integer (pos n)) = n == 0
is_zero (number f) = eq f zero_f
is_zero v = false

unfoldable pub all_zero : Items → Bool
unfolding is_zero
all_zero no_item = true
all_zero (item v rest) = is_zero v && all_zero rest

-- The tokens as numbers, if each is an `int` within the vocabulary.
unfoldable pub token_ids : Items → Result (List ℕ)
token_ids no_item = ok []
token_ids (item (integer (pos n)) rest) =
    let others = token_ids rest in
    if ltb n cma_vocab_size then (others >>= λ ids. ok (n ∷ ids)) else raise value_error
token_ids (item v rest) = raise value_error

-- `validate_instruction_tokens`, with the tokens that it lets pass. Of no token, all are zero.
unfoldable pub validate_instruction_tokens : Items → Result (List ℕ)
validate_instruction_tokens tokens = if all_zero tokens then raise value_error else token_ids tokens

-- `payload.get("instruction_tokens")`, a list
unfoldable pub tokens_of : Option Json → Result (List ℕ)
tokens_of (some (array items)) = validate_instruction_tokens items
tokens_of v = raise value_error

-- `payload.get(key)`, a text that is not empty
unfoldable pub text_of : Option Json → Result String
text_of (some (text s)) = if str_eq s "" then raise value_error else ok s
text_of v = raise value_error

-- `type(frame_id) is int and frame_id == next_frame`
unfoldable pub is_frame : Option Json → ℕ → Bool
is_frame (some (integer (pos n))) k = n == k
is_frame v k = false

-- `payload.get("depth_width") == 256`, an integer or a double
unfoldable pub is_256 : (Float → ℕ → Bool) → Option Json → Bool
is_256 float_is (some (integer (pos n))) = n == 256
is_256 float_is (some (number f)) = float_is f 256
is_256 float_is v = false

-- A shape is made of integers.
unfoldable pub is_integer : Option Json → Bool
is_integer (some (integer n)) = true
is_integer v = false

-- `payload[key]`, decoded; a missing key is one of the errors that are caught.
unfoldable pub bytes_at : Vision → Option Json → Result (List ℕ)
bytes_at vision none = raise value_error
bytes_at vision (some v) = elim (vision.b64decode v) [
  | ok bytes ↦ ok bytes
  | raise e ↦ raise value_error
]

unfoldable pub same_tokens : List ℕ → List ℕ → Bool
same_tokens [] [] = true
same_tokens (a ∷ rest) (b ∷ others) = a == b && same_tokens rest others
same_tokens ts others = false

-- The image for the model, and the depth.
unfoldable pub prepare_rgbd :
    Vision → List ℕ → List ℕ → Option Json → Option Json → Result (List ℕ × List Float)
prepare_rgbd vision jpeg depth width height =
    if not (is_256 vision.float_is width && is_256 vision.float_is height)
      || not (length depth == 262144)
    then raise value_error
    else (vision.open_image jpeg >>= λ image.
        if not (image.0 == 256 && image.1 == 256)
        then raise value_error
        else (image.2 >>= λ rgb.
            if not (is_integer width && is_integer height)
            then raise type_error
            else ok (rgb, vision.normalize depth)))

-- The action's name, and its number, if the model's action is one.
unfoldable pub action_name : Option ℤ → Result (ℕ × String)
action_name (some (pos n)) = elim (get_elem? actions n) [
  | none ↦ raise value_error
  | some name ↦ ok (n, name)
]
action_name a = raise value_error

-- `payload.get("episode_id")` is the active episode.
unfoldable pub is_active : Option Json → Option String → Bool
is_active v none = false
is_active v (some id) = is_text v id

-- The instruction and the tokens are those of the frame before.
unfoldable pub is_unchanged : String → List ℕ → Option String → Option (List ℕ) → Bool
is_unchanged instruction tokens (some i) (some ts) = str_eq instruction i && same_tokens tokens ts
is_unchanged instruction tokens i ts = false

abbrev pub require : Bool → Result (Unit {0})
require c = if c then ok tt else raise value_error
