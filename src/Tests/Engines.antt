-- ===== src/Tests/Engines.antt =====
-- The OmniVLA-edge engine over a toy network: a frame is the size that it was resized to, and the
-- features of a text are the text.
use rvln.Prelude.{
  ℕ, ◌≡◌, refl, String, some, none, List, [], ◌∷◌, All, ok, raise, value_error, arith,
}
use rvln.Float.{Float, zero_f}
use rvln.Edge.Json.{pos, to_size}
use rvln.Edge.Messages.{Image}
use rvln.Edge.Preprocess.{is_rgb}
use rvln.Remote.Backend.{Tensor, full}
use rvln.Remote.Inference.{VlaInferenceNode, run}
use rvln.Core.Engine as CoreEngine
use rvln.Core.Engine.{
  GoalPose, Inputs, Networks, Engine, Request, make_engine, black_chw, normalize_chw, infer_chunk,
  infer_image, reset, push_frame, stack_frames, modality_id_for, goal_image_of, goal_pose_of,
  text_features, cached_text, pad_front,
}
use rvln.Core.Engine.Plain as Plain
use rvln.Core.Engine.Plain.{Command, infer_call, reset_call, plain_run, run-plain_run}
use rvln.Remote.OmniEdge.{warmup, warmup_calls, backend}
use rvln.Remote.OmniEdge.Warmup.{run-warmup}
use rvln.Remote.OmniEdge.Paths.{ReturnsChunks, MakesPath, run-MakesPath}
use rvln.Tests.Platform.{platform}
use rvln.Tests.Correlation.{picture}
use rvln.Tests.Remote.{pil, two}

abbrev chunk : Tensor
chunk = record { shape = 8 ∷ 4 ∷ []; items = full 32 zero_f }

abbrev id : Float → Float
id x = x

abbrev toy : Networks ℕ String
toy = record {
  resize = λ image size. ok size;
  encode_text = λ s. ok s;
  forward = λ inputs. ok chunk;
}

abbrev engine : Engine ℕ String
engine = record { obs_ring = []; text_cache_key = none; text_cache_feat = none; black96 = 96 }

made : make_engine platform id toy ≡ ok engine
unfolding make_engine black_chw normalize_chw is_rgb
made = refl

abbrev to_door : Request
to_door = record {
  cur_image = some picture;
  goal_mode = "text";
  goal_text = "door";
  goal_pose = none;
  goal_image = none;
}

abbrev commands : List Command
commands =
    infer_call to_door
    ∷ infer_call (record to_door { goal_mode = "map" })
    ∷ reset_call
    ∷ infer_call to_door
    ∷ []

-- An unknown goal is refused, after its frame was kept.
answers : Plain.run platform id toy commands engine ≡ ok chunk ∷ raise value_error ∷ ok chunk ∷ []
unfolding Plain.run infer_chunk infer_image normalize_chw is_rgb push_frame stack_frames pad_front
    modality_id_for goal_image_of goal_pose_of text_features cached_text CoreEngine.reset
answers = refl

abbrev ring : List ℕ
ring = 5 ∷ 6 ∷ []

abbrev origin_pose : GoalPose
origin_pose = (zero_f, zero_f, zero_f, zero_f)

abbrev frame : ℕ
frame = 7

stacked : stack_frames (push_frame frame ring) 6 ≡ ok (5 ∷ 5 ∷ 5 ∷ 5 ∷ 6 ∷ 7 ∷ [])
unfolding stack_frames push_frame pad_front
stacked = refl

abbrev warmed : Engine ℕ String
warmed = record engine { text_cache_key = some "warmup"; text_cache_feat = some "warmup" }

run-warmup_example :
    Plain.run platform id toy commands warmed ≡ plain_run platform id toy 96 [] commands
unfolding warmup warmup_calls infer_chunk infer_image normalize_chw is_rgb push_frame stack_frames
    pad_front modality_id_for goal_image_of goal_pose_of text_features cached_text CoreEngine.reset
    to_size
run-warmup_example =
    run-warmup platform id id zero_f {I = Image} (λ image. image) toy (pos 2) engine warmed commands
      made refl

toy-ReturnsChunks : ReturnsChunks toy
unfolding full
toy-ReturnsChunks inputs t h = (ground arith, ground arith)

abbrev node : VlaInferenceNode ℕ (Engine ℕ String)
node = record { backend = engine; past_image = none }

run-MakesPath_example :
    All
      (MakesPath platform "base_link")
      (run platform pil (backend platform id id zero_f (λ n. picture) toy) two node)
run-MakesPath_example =
    run-MakesPath platform id id zero_f (λ n. picture) toy pil "base_link" two node
      toy-ReturnsChunks
