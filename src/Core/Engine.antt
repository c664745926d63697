-- ===== src/Core/Engine.antt =====
-- src/rvln_core/rvln_core/omnivla_edge_engine.py: `OmniVLAEdgeEngine`, the ring of frames, the goal's
-- tensors, the cached text and the forward pass. OpenCV's resizing, CLIP and the network are
-- parameters. A frame is what `_normalize_chw` makes of an image.
pub mod History
pub mod Plain
pub mod Shapes
use rvln.Prelude.{
  ℕ, zero, suc, ◌+◌, ◌-◌, ◌*◌, Bool, true, not, ◌&&◌, ltb, String, Option, none, some, is_some,
  List, [], ◌∷◌, ◌++◌, length, drop, str_eq, if◌then◌else◌, Result, ok, raise, value_error,
  runtime_error,
}
use rvln.Float.{Float, Arith, zero_f, lt, of_angle}
use rvln.Float.Literals.{lit_0_1, lit_30}
use rvln.Edge.Messages.{Image}
use rvln.Edge.Preprocess.{is_rgb}
use rvln.Bench.Calls.{Call, pure, lift, ◌>>=◌, ◌>>◌}
use rvln.Remote.Backend.{Tensor}

-- _MODEL_PARAMS["context_size"]
abbrev pub context_size : ℕ
context_size = 5

abbrev pub GoalPose : Type 0
GoalPose = Float × Float × Float × Float

-- The arguments of the network; frames that are concatenated along the channels stand in a list.
pub record Inputs (F T : Type 0) : Type 0 where
  pub obs_images : List F
  pub goal_pose : GoalPose
  pub map_images : List F
  pub goal_image : F
  pub modality_id : ℕ
  pub feat_text : T
  pub cur_large : F

-- `resize` also normalises; `encode_text` tokenises first; `forward` is the network's first output
-- for the only frame of the batch.
pub record Networks (F T : Type 0) : Type 0 where
  pub resize : Image → ℕ → Result F
  pub encode_text : String → Result T
  pub forward : Inputs F T → Result Tensor

pub record Engine (F T : Type 0) : Type 0 where
  pub obs_ring : List F
  pub text_cache_key : Option String
  pub text_cache_feat : Option T
  pub black96 : F

-- The keyword arguments of `infer_chunk`.
pub record Request : Type 0 where
  pub cur_image : Option Image
  pub goal_mode : String
  pub goal_text : String
  pub goal_pose : Option (Float × Float × Float)
  pub goal_image : Option Image

unfoldable pub modality_id_for : String → Result ℕ
modality_id_for mode =
    if str_eq mode "text"
    then ok 7
    else if str_eq mode "pose"
    then ok 4
    else if str_eq mode "image"
    then ok 6
    else raise value_error

-- The front is padded with the oldest frame, `left` times.
unfoldable pub pad_front : {F : Type 0} → ℕ → F → List F → List F
pad_front zero oldest frames = frames
pad_front (suc left) oldest frames = pad_front left oldest (oldest ∷ frames)

abbrev pub last_n : {F : Type 0} → ℕ → List F → List F
last_n n frames = drop (length frames - n) frames

unfoldable pub stack_frames : {F : Type 0} → List F → ℕ → Result (List F)
stack_frames [] need = raise runtime_error
stack_frames (oldest ∷ rest) need =
    let frames = oldest ∷ rest in ok (last_n need (pad_front (need - length frames) oldest frames))

unfoldable pub push_frame : {F : Type 0} → F → List F → List F
push_frame frame ring =
    let pushed = ring ++ (frame ∷ []) in
    if ltb (context_size + 1) (length pushed) then drop 1 pushed else pushed

abbrev pub zeros : ℕ → List ℕ
zeros zero = []
zeros (suc n) = 0 ∷ zeros n

abbrev pub or_xxxx : String → String
or_xxxx text = if str_eq text "" then "xxxx" else text

-- `to_f32` rounds to a float32.
module _ (m : Arith) (to_f32 : Float → Float) {F T : Type 0} (net : Networks F T) where
  unfoldable pub normalize_chw : Image → ℕ → Result F
  normalize_chw image size =
      if image.uint8 && is_rgb image.shape then net.resize image size else raise value_error

  unfoldable pub black_chw : ℕ → Result F
  black_chw size =
      normalize_chw
        (record { shape = size ∷ size ∷ 3 ∷ []; uint8 = true; items = zeros (size * size * 3) })
        size

  unfoldable pub pose_goal_vector : Float × Float × Float → Result GoalPose
  pose_goal_vector (x_fwd, y_left, theta) =
      let radius = m.hypot x_fwd y_left in
      let scale = m.div lit_30 radius in
      let far = lt lit_30 radius in
      let x = if far then m.mul x_fwd scale else x_fwd in
      let y = if far then m.mul y_left scale else y_left in
      elim (of_angle m.cos theta) [
        | raise err ↦ raise err
        | ok cosine ↦ elim (of_angle m.sin theta) [
          | raise err ↦ raise err
          | ok sine ↦
              ok (to_f32 (m.div x lit_0_1), to_f32 (m.div y lit_0_1), to_f32 cosine, to_f32 sine)
        ]
      ]

  unfoldable pub goal_pose_of : Option (Float × Float × Float) → Result GoalPose
  goal_pose_of none = ok (zero_f, zero_f, zero_f, zero_f)
  goal_pose_of (some pose) = pose_goal_vector pose

  -- The image of an image goal, or else black.
  unfoldable pub goal_image_of : F → Request → Result F
  goal_image_of black q = elim q.goal_image [
    | none ↦ ok black
    | some image ↦ if str_eq q.goal_mode "image" then normalize_chw image 96 else ok black
  ]

  -- The cached features, if they are of this text.
  unfoldable pub cached_text : String → Engine F T → Option T
  cached_text text e = elim e.text_cache_key [
    | none ↦ none
    | some key ↦ if str_eq text key then e.text_cache_feat else none
  ]

  unfoldable pub text_features : String → Call (Engine F T) T
  text_features text e = elim (cached_text text e) [
    | some feat ↦ (ok feat, e)
    | none ↦ elim (net.encode_text (or_xxxx text)) [
      | raise err ↦ (raise err, e)
      | ok feat ↦ (ok feat, record e { text_cache_key = some text; text_cache_feat = some feat })
    ]
  ]

  unfoldable pub make_engine : Result (Engine F T)
  make_engine = elim (black_chw 96) [
    | raise err ↦ raise err
    | ok black ↦
        ok
          (record { obs_ring = []; text_cache_key = none; text_cache_feat = none; black96 = black })
  ]

  unfoldable pub reset : Engine F T → Engine F T
  reset e = record e { obs_ring = [] }

  abbrev push : F → Call (Engine F T) Unit
  push frame e = (ok tt, record e { obs_ring = push_frame frame e.obs_ring })

  abbrev stack_obs : Call (Engine F T) (List F)
  stack_obs e = (stack_frames e.obs_ring (context_size + 1), e)

  abbrev black : Call (Engine F T) F
  black e = (ok e.black96, e)

  abbrev pub inputs_of : F → List F → F → ℕ → GoalPose → F → T → Inputs F T
  inputs_of black96 obs large modality pose goal feat = record {
    obs_images = obs;
    goal_pose = pose;
    map_images = black96 ∷ black96 ∷ last_n 1 obs;
    goal_image = goal;
    modality_id = modality;
    feat_text = feat;
    cur_large = large;
  }

  -- From the current image on.
  unfoldable pub infer_image : Request → Image → Call (Engine F T) Tensor
  infer_image q image = do
    frame ← lift (normalize_chw image 96)
    push frame
    obs ← stack_obs
    large ← lift (normalize_chw image 224)
    modality ← lift (modality_id_for q.goal_mode)
    pose ← lift (goal_pose_of q.goal_pose)
    black96 ← black
    goal ← lift (goal_image_of black96 q)
    feat ← text_features (if str_eq q.goal_mode "text" then q.goal_text else "")
    lift (net.forward (inputs_of black96 obs large modality pose goal feat))

  unfoldable pub infer_chunk : Request → Call (Engine F T) Tensor
  infer_chunk q e = elim q.cur_image [
    | none ↦ (raise value_error, e)
    | some image ↦ infer_image q image e
  ]
