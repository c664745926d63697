-- ===== src/Remote/Inference.antt =====
-- src/rvln_remote/rvln_remote/inference_node.py: an observation comes in, and at most one embedding
-- goes out. The node's callback is one step: it is subscribed in one callback group.
pub mod Replies
pub mod Caching
use rvln.Prelude.{
  ℕ, ◌+◌, ◌*◌, Bool, not, ◌==◌, String, Option, none, some, List, [], ◌∷◌, ◌++◌, if◌then◌else◌,
  Result, ok, raise, value_error, ◌>>=◌,
}
use rvln.Float.{Float, Arith, one_f}
use rvln.Float.Literals.{lit_2}
use rvln.Edge.Messages.{Quaternion, Mode, GoalSpec, Observation, ActionEmbedding}
use rvln.Remote.Backend.{Query, Tensor, VlaBackend}

-- What PIL opens and converts to RGB, and the placeholder of one pixel.
pub record Pil (I : Type 0) : Type 0 where
  pub open_rgb : List ℕ → Result I
  pub placeholder : I

pub record VlaInferenceNode (I B : Type 0) : Type 0 where
  pub backend : B
  pub past_image : Option I

abbrev pub product : List ℕ → ℕ
product [] = 1
product (n ∷ rest) = n * product rest

-- `arr.shape[-1]`, and the number of rows before it, as `reshape(-1, shape[-1])` finds it.
unfoldable pub last_of : List ℕ → ℕ
last_of [] = 0
last_of (n ∷ []) = n
last_of (n ∷ k ∷ rest) = last_of (k ∷ rest)

unfoldable pub rows_of : List ℕ → ℕ
rows_of [] = 1
rows_of (n ∷ []) = 1
rows_of (n ∷ k ∷ rest) = n * rows_of (k ∷ rest)

-- The rows and the columns; without columns, `-1` has no answer.
unfoldable pub matrix_shape : List ℕ → Result (ℕ × ℕ)
unfolding last_of rows_of
matrix_shape (n ∷ k ∷ rest) =
    let columns = last_of (n ∷ k ∷ rest) in
    if columns == 0 then raise value_error else ok (rows_of (n ∷ k ∷ rest), columns)
matrix_shape shape = raise value_error

-- What the callback does, in order: it asks the backend, and it publishes.
pub data Output (I : Type 0) : Type 0 where
  asked : Query I → Output I
  published : ActionEmbedding → Output I

module _ {I B : Type 0} (m : Arith) (pil : Pil I) (ops : VlaBackend I B) where
  unfoldable pub decode_image : List ℕ → I
  decode_image [] = pil.placeholder
  decode_image (byte ∷ rest) = elim (pil.open_rgb (byte ∷ rest)) [
    | ok image ↦ image
    | raise e ↦ pil.placeholder
  ]

  abbrev pub yaw_of : Quaternion → Float
  yaw_of q =
      m.atan2 (m.mul lit_2 (m.add (m.mul q.w q.z) (m.mul q.x q.y)))
        (m.sub one_f (m.mul lit_2 (m.add (m.mul q.y q.y) (m.mul q.z q.z))))

  -- The pose, the text and the image of a goal.
  unfoldable pub goal_to_python :
      GoalSpec → Result (Option (Float × Float × Float) × String × Option I)
  goal_to_python g = elim g.mode [
    | Mode.pose ↦ ok (some (g.goal_pose.x, g.goal_pose.y, yaw_of g.goal_pose.orientation), "", none)
    | Mode.text ↦ ok (none, g.goal_text, none)
    | Mode.image ↦ ok (none, "", some (decode_image g.raw_image))
    | Mode.unknown n ↦ raise value_error
  ]

  -- The message of a result.
  unfoldable pub embedding_of : Observation → String → Tensor × Float → Result ActionEmbedding
  embedding_of obs version (arr, inference_ms) = do
    shape ← matrix_shape arr.shape
    ok (record {
      frame_id = obs.frame_id;
      num_tokens = shape.0;
      embed_dim = shape.1;
      embedding = arr.items;
      inference_ms = inference_ms;
      model_version = version;
    })

  -- The result is published, unless something raised.
  unfoldable pub publish : Observation → Result (Tensor × Float) → B → List (Output I)
  publish obs r b = elim (r >>= embedding_of obs (ops.model_version b)) [
    | ok emb ↦ published emb ∷ []
    | raise e ↦ []
  ]

  unfoldable pub on_observation :
      Observation → VlaInferenceNode I B → List (Output I) × VlaInferenceNode I B
  on_observation obs n =
      let current = decode_image obs.jpeg in
      let past : I = elim n.past_image [ none ↦ current | some image ↦ image ] in
      elim (goal_to_python obs.goal) [
        | raise e ↦ ([], record n { past_image = some current })
        | ok (pose, text, goal_image) ↦
            let q : Query I = record {
              current_image = current;
              past_image = past;
              lang_instruction = text;
              goal_image = goal_image;
              goal_pose = pose;
            } in
            let (r, b) = ops.infer q n.backend in
            (asked q ∷ publish obs r b, record n { backend = b; past_image = some current })
      ]

  -- Observations, one after the other.
  unfoldable pub run : List Observation → VlaInferenceNode I B → List (Output I)
  unfolding on_observation
  run [] n = []
  run (obs ∷ rest) n = let (out, n') = on_observation obs n in out ++ run rest n'
