-- ===== src/Remote/OmniEdge/Paths.antt =====
-- The remote OmniVLA-edge backend, the inference node over it, and the adapter on the robot that
-- makes paths of what the node publishes.
use rvln.Prelude.{
  ℕ, ◌+◌, ◌≡◌, refl, subst, String, none, some, List, [], ◌∷◌, length, All, All-append, Result, ok,
  raise, Result-cases, str_eq, if◌then◌else◌, inl, inr, arith,
}
use rvln.Float.{Float, Arith, one_f}
use rvln.Edge.Messages.{Image, Observation, ActionEmbedding, FramePath}
use rvln.Edge.Adapter.{omnivla_path}
use rvln.Edge.Trajectory.{reshape, trajectory_to_path}
use rvln.Edge.Trajectory.Shape.{reshape-rows, rows_to_poses-ok}
use rvln.Core.Engine.{
  Networks, Inputs, Engine, Request, normalize_chw, push_frame, stack_frames, modality_id_for,
  goal_pose_of, goal_image_of, text_features, inputs_of, infer_chunk, infer_image,
}
use rvln.Remote.Backend.{Query, Tensor, VlaBackend}
use rvln.Remote.Inference.{
  Pil, VlaInferenceNode, Output, asked, published, last_of, rows_of, matrix_shape, embedding_of,
  publish, decode_image, goal_to_python, on_observation, run,
}
use rvln.Remote.OmniEdge.{scale_columns, to_metres, infer, backend, request_of}

-- A chunk of the network: eight rows of four values.
abbrev pub IsChunk : Tensor → Type 0
IsChunk t = (t.shape ≡ 8 ∷ 4 ∷ []) × (length t.items ≡ 32)

-- What the network returns is such a chunk.
abbrev pub ReturnsChunks : {F T : Type 0} → Networks F T → Type 0
ReturnsChunks {F = F} {T = T} net =
    (inputs : Inputs F T) (t : Tensor) → net.forward inputs ≡ ok t → IsChunk t

-- The adapter on the robot makes a path of eight poses of what is published.
abbrev pub MakesPath : {I : Type 0} → Arith → String → Output I → Type 0
MakesPath m frame (asked q) = Unit
MakesPath m frame (published emb) =
    (path : FramePath) × (omnivla_path m
        (some (record {
          values = emb.embedding;
          num_tokens = emb.num_tokens;
          embed_dim = emb.embed_dim;
        }))
        frame
      ≡ ok path)
    × (length path.poses ≡ 8)

length-scale_columns :
    (scale : Float → Float) (columns block j : ℕ) (items : List Float)
    → length (scale_columns scale columns block j items) ≡ length items
unfolding scale_columns
length-scale_columns scale columns block j [] = refl
length-scale_columns scale columns block j (v ∷ rest) =
    omega (arith, length-scale_columns scale columns block (j + 1) rest)

to_metres-IsChunk :
    (scale : Float → Float) (t out : Tensor) → IsChunk t → to_metres scale t ≡ ok out → IsChunk out
unfolding to_metres
to_metres-IsChunk scale t out c h =
    let size = length-scale_columns scale 4 1 0 t.items in
    (ground (arith, c.0, h), ground (arith, c.0, c.1, h, size))

module _ (m : Arith) (to_f32 scale : Float → Float) (elapsed : Float) {I F T : Type 0}
    (to_rgb : I → Image) (net : Networks F T) where
  infer_image-IsChunk :
      (q : Request) (image : Image) (e : Engine F T) (t : Tensor)
      → ReturnsChunks net
      → (infer_image m to_f32 net q image e).0 ≡ ok t
      → IsChunk t
  unfolding infer_image
  infer_image-IsChunk q image e t c h = elim (Result-cases (normalize_chw m to_f32 net image 96)) [
    | inr (err, e1) ↦ absurd (ground arith)
    | inl (frame, e1) ↦
        let ring : List F = push_frame frame e.obs_ring in
        let pushed : Engine F T = record e { obs_ring = ring } in
        let feats : Result T × Engine F T =
          text_features m to_f32 net (if str_eq q.goal_mode "text" then q.goal_text else "")
            pushed in
        elim (Result-cases (stack_frames ring 6)) [
          | inr (err, e2) ↦ absurd (ground arith)
          | inl (obs, e2) ↦ elim (Result-cases (normalize_chw m to_f32 net image 224)) [
            | inr (err, e3) ↦ absurd (ground arith)
            | inl (large, e3) ↦ elim (Result-cases (modality_id_for q.goal_mode)) [
              | inr (err, e4) ↦ absurd (ground arith)
              | inl (modality, e4) ↦ elim (Result-cases (goal_pose_of m to_f32 net q.goal_pose)) [
                | inr (err, e5) ↦ absurd (ground arith)
                | inl (pose, e5) ↦ elim (Result-cases (goal_image_of m to_f32 net e.black96 q)) [
                  | inr (err, e6) ↦ absurd (ground arith)
                  | inl (goal, e6) ↦ elim (Result-cases feats.0) [
                    | inr (err, e7) ↦ absurd (ground arith)
                    | inl (feat, e7) ↦
                        c (inputs_of m to_f32 net e.black96 obs large modality pose goal feat) t
                          (ground arith)
                  ]
                ]
              ]
            ]
          ]
        ]
  ]

  infer-IsChunk :
      (q : Query I) (e : Engine F T) (t : Tensor) (ms : Float)
      → ReturnsChunks net
      → (infer m to_f32 scale elapsed to_rgb net q e).0 ≡ ok (t, ms)
      → IsChunk t
  unfolding infer infer_chunk request_of
  infer-IsChunk q e t ms c h =
      let req : Request = request_of m to_f32 scale elapsed to_rgb net q in
      elim (Result-cases (infer_image m to_f32 net req (to_rgb q.current_image) e).0) [
        | inr (err, e1) ↦ absurd (ground arith)
        | inl (chunk, e1) ↦ elim (Result-cases (to_metres scale chunk)) [
          | inr (err, e2) ↦ absurd (ground arith)
          | inl (out, e2) ↦
              let same : out ≡ t = ground arith in
              subst IsChunk same (
                to_metres-IsChunk scale chunk out
                  (infer_image-IsChunk req (to_rgb q.current_image) e chunk c e1) e2)
        ]
      ]

  module _ (pil : Pil I) (frame : String) where
    abbrev ops : VlaBackend I (Engine F T)
    ops = backend m to_f32 scale elapsed to_rgb net

    chunk-path :
        (emb : ActionEmbedding)
        → emb.num_tokens ≡ 8
        → emb.embed_dim ≡ 4
        → length emb.embedding ≡ 32
        → MakesPath {I = I} m frame (published emb)
    unfolding omnivla_path trajectory_to_path
    chunk-path emb n d size =
        let (each, rows) = reshape-rows 8 4 emb.embedding size in
        let (poses, built, count) =
          rows_to_poses-ok m one_f 4 (reshape 8 4 emb.embedding) (omega arith) each in
        (record { frame_id = frame; poses = poses }, ground (arith, built), omega arith)

    embedding_of-path :
        (obs : Observation) (version : String) (t : Tensor) (ms : Float) (emb : ActionEmbedding)
        → IsChunk t
        → embedding_of m pil ops obs version (t, ms) ≡ ok emb
        → MakesPath {I = I} m frame (published emb)
    unfolding embedding_of matrix_shape rows_of last_of
    embedding_of-path obs version t ms emb c h =
        chunk-path emb (ground (arith, c.0, h)) (ground (arith, c.0, h))
          (ground (arith, c.0, c.1, h))

    publish-path :
        (obs : Observation) (r : Result (Tensor × Float)) (e : Engine F T)
        → ((t : Tensor) (ms : Float) → r ≡ ok (t, ms) → IsChunk t)
        → All (MakesPath m frame) (publish m pil ops obs r e)
    unfolding publish
    publish-path obs (raise err) e c = tt
    publish-path obs (ok (t, ms)) e c =
        elim (Result-cases (embedding_of m pil ops obs (ops.model_version e) (t, ms))) [
          | inr (err, bad) ↦
              let silent : [] ≡ publish m pil ops obs (ok (t, ms)) e = ground arith in
              subst (All (MakesPath m frame)) silent tt
          | inl (emb, made) ↦
              let tells : published emb ∷ [] ≡ publish m pil ops obs (ok (t, ms)) e =
                ground arith in
              subst (All (MakesPath m frame)) tells
                (embedding_of-path obs (ops.model_version e) t ms emb (c t ms refl) made, tt)
        ]

    on_observation-path :
        (obs : Observation) (n : VlaInferenceNode I (Engine F T))
        → ReturnsChunks net
        → All (MakesPath m frame) (on_observation m pil ops obs n).0
    unfolding on_observation
    on_observation-path obs n c = elim (Result-cases (goal_to_python m pil ops obs.goal)) [
      | inr (err, bad) ↦
          let silent : [] ≡ (on_observation m pil ops obs n).0 = ground arith in
          subst (All (MakesPath m frame)) silent tt
      | inl ((pose, text, goal_image), good) ↦
          let q : Query I = record {
            current_image = decode_image m pil ops obs.jpeg;
            past_image = elim n.past_image [
              | none ↦ decode_image m pil ops obs.jpeg
              | some image ↦ image
            ];
            lang_instruction = text;
            goal_image = goal_image;
            goal_pose = pose;
          } in
          let r : Result (Tensor × Float) × Engine F T = ops.infer q n.backend in
          let tells : asked q ∷ publish m pil ops obs r.0 r.1 ≡ (on_observation m pil ops obs n).0 =
            ground arith in
          subst (All (MakesPath m frame)) tells
            (tt, publish-path obs r.0 r.1 (λ t ms e. infer-IsChunk q n.backend t ms c e))
    ]

    -- From the camera's image to the path on the robot, through any observations in their order and
    -- whatever the text encoder, the resizing and the images are: if the network returns eight rows
    -- of four values, the adapter on the robot makes a path of eight poses of every embedding that
    -- the inference node publishes over the OmniVLA-edge backend; it refuses none.
    pub run-MakesPath :
        (observations : List Observation) (n : VlaInferenceNode I (Engine F T))
        → ReturnsChunks net
        → All (MakesPath m frame) (run m pil ops observations n)
    unfolding run
    run-MakesPath [] n c = tt
    run-MakesPath (obs ∷ rest) n c =
        All-append (MakesPath m frame) (on_observation m pil ops obs n).0
          (run m pil ops rest (on_observation m pil ops obs n).1) (on_observation-path obs n c)
          (run-MakesPath rest (on_observation m pil ops obs n).1 c)
