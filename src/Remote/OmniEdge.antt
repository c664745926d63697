-- ===== src/Remote/OmniEdge.antt =====
-- src/rvln_remote/rvln_remote/backends/omnivla_edge.py: `OmniVLAEdgeBackend`, the engine behind the
-- inference node. The images that PIL converts, and numpy's product in float32, are parameters.
pub mod Paths
pub mod Warmup
use rvln.Prelude.{
  ℕ, zero, suc, ◌+◌, ◌*◌, ◌/◌, ◌%◌, Bool, true, not, ltb, ◌==◌, String, Option, none, some, is_some,
  List, [], ◌∷◌, str_eq, if◌then◌else◌, Result, ok, raise, index_error,
}
use rvln.Float.{Float, Arith}
use rvln.Edge.Messages.{Image}
use rvln.Edge.Json.{ℤ, to_size}
use rvln.Bench.Calls.{Call, pure, lift, ◌>>=◌, ◌>>◌}
use rvln.Remote.Backend.{Query, Tensor, VlaBackend}
use rvln.Remote.Inference.{product}
use rvln.Core.Engine.{Networks, Engine, Request, zeros, infer_chunk, reset}

unfoldable pub goal_mode_for : Bool → Bool → Bool → String
goal_mode_for has_lang has_image_goal has_pose =
    if has_lang
    then "text"
    else if has_image_goal
    then "image"
    else if has_pose
    then "pose"
    else "text"

-- The items from number `j` on, those of the first two columns scaled. Of each column there are
-- `block` items in a row.
unfoldable pub scale_columns : (Float → Float) → ℕ → ℕ → ℕ → List Float → List Float
scale_columns scale columns block j [] = []
scale_columns scale columns block j (v ∷ rest) =
    (if ltb ((j / block) % columns) 2 then scale v else v)
    ∷ scale_columns scale columns block (j + 1) rest

-- `out[:, 0] *= spacing` and `out[:, 1] *= spacing`
unfoldable pub to_metres : (Float → Float) → Tensor → Result Tensor
to_metres scale t = scaled t.shape
  where
    scaled : List ℕ → Result Tensor
    scaled (n ∷ columns ∷ rest) =
        if ltb columns 2
        then raise index_error
        else ok (record t { items = scale_columns scale columns (product rest) 0 t.items })
    scaled shape = raise index_error

-- The frame of a warmup.
abbrev pub black_image : Image
black_image = record { shape = 224 ∷ 224 ∷ 3 ∷ []; uint8 = true; items = zeros (224 * 224 * 3) }

abbrev pub warmup_request : Request
warmup_request = record {
  cur_image = some black_image;
  goal_mode = "text";
  goal_text = "warmup";
  goal_pose = none;
  goal_image = none;
}

-- `elapsed` is the length of a call, `scale` the product with the spacing, and `to_rgb` what
-- `convert("RGB")` and `np.asarray` make of an image.
module _ (m : Arith) (to_f32 scale : Float → Float) (elapsed : Float) {I F T : Type 0}
    (to_rgb : I → Image) (net : Networks F T) where
  unfoldable pub warmup_calls : ℕ → Call (Engine F T) Unit
  warmup_calls zero = pure tt
  warmup_calls (suc n) = infer_chunk m to_f32 net warmup_request >>= λ t. warmup_calls n

  abbrev drop_history : Call (Engine F T) Unit
  drop_history e = (ok tt, reset m to_f32 net e)

  -- `max(1, num_iters)` calls, and then the history is dropped.
  unfoldable pub warmup : ℤ → Call (Engine F T) Unit
  warmup num_iters =
      let n = to_size num_iters in warmup_calls (if n == 0 then 1 else n) >>= λ u. drop_history

  unfoldable pub request_of : Query I → Request
  request_of q = record {
    cur_image = some (to_rgb q.current_image);
    goal_mode =
        goal_mode_for (not (str_eq q.lang_instruction "")) (is_some q.goal_image)
          (is_some q.goal_pose);
    goal_text = q.lang_instruction;
    goal_pose = q.goal_pose;
    goal_image = elim q.goal_image [ none ↦ none | some image ↦ some (to_rgb image) ];
  }

  unfoldable pub infer : Query I → Call (Engine F T) (Tensor × Float)
  infer q = do
    chunk ← infer_chunk m to_f32 net (request_of q)
    out ← lift (to_metres scale chunk)
    pure (out, elapsed)

  abbrev pub backend : VlaBackend I (Engine F T)
  backend = record { infer = infer; model_version = λ e. "omnivla-edge-v1" }
